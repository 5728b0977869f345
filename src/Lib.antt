-- ===== src/Lib.antt =====
-- apexd, the daemon of Android that installs and activates APEX packages: what it decides, and what it
-- keeps on disk and in memory. The code is C++ under apexd/, with its data types under proto/.
--
-- The parts and how they interact. A repository (apexd/apex_file_repository.cpp) is filled by scans of
-- the system partitions and of /data; `SelectApexForActivation` (apexd/apexd.cpp) picks from it the files
-- to activate; what is mounted is kept in a database (apexd/apex_database.h). A staged session goes
-- through the states of proto/session_state.proto: `SubmitStagedSession` verifies its packages and
-- writes its state file (apexd/apexd_session.cpp), `MarkStagedSessionReady` or `AbortStagedSession`
-- follow, at the next boot `ScanStagedSessionsDirAndStage` links its packages into the active directory,
-- and `MarkStagedSessionSuccessful` or `RevertActiveSessions`, which restores a backup of that directory,
-- ends it. `InstallPackage` updates a package at once: it mounts the file to verify it, unmounts the old
-- one, and activates the new one, or the old one again.
--
-- The files:
--   Base, and the modules under it: shared names, lists, the integers of C++ and `Result`, which has a
--     failed CHECK or LOG(FATAL), the end of the process, as an outcome of its own (`fatal`).
--   ApexFile: `ApexFile` (apexd/apex_file.h), manifests and package ids (apexd/apex_manifest.cpp).
--     ApexFile/PackageId: package ids as keys.
--   Files: `ReadDir` and `FindFilesBySuffix` (apexd/apexd_utils.h) over a file system given as answers.
--   Repository: `ApexFileRepository`, with an unordered map as the list of its entries. Its theorems are
--     in Repository/Data (the scan of /data) and Repository/Keys (the stores as maps).
--   Select: `SelectApexForActivation` and `ShouldAllocateSpaceForDecompression`. Select/Groups is on
--     `AllApexFilesByName`, Select/Choice on two files of a package, Select/Activation on the whole,
--     Select/Space on the second function.
--   Database: `MountedApexDatabase`, a map of maps as sorted lists. Database/Latest and Database/Devices
--     are on the latest mount and on the devices, Database/Invariant on sequences of calls.
--   Populate: `PopulateFromMounts` (apexd/apex_database.cpp), from the lines of /proc/mounts to the calls of
--     the database. Populate/Devices is on the loop devices behind a dm device, Populate/Point on mount
--     points, Populate/Marks, Populate/Highest and Populate/Latest on the latest mounts.
--   Unmount: what `UnmountTempMount` of apexd/apexd.cpp does to the database; its loop runs on fuel, the
--     number of temp mounts, and Unmount/Temp shows that to be enough; Unmount/Stays is on other packages.
--   Mount: the resources of the kernel; Mount/Package is `MountPackageImpl` as steps that hold devices, with
--     the destructors and scope guards of its early returns. Mount/Held follows what the steps hold,
--     Mount/Release what is left at the end.
--   Machine: the kernel's resources, the database, the files and the bind mounts together, with `Unmount`
--     and `MountPackage`. Activate: `ActivatePackageImpl`, `UnmountPackage` and what they call, with
--     Activate/Latest on the latest mounts and Activate/Files on all else. Install: `InstallPackage`,
--     its temp mount and its checks (Install/Package has the function itself); Install/Minor is on the new
--     id, whose loop runs on fuel, one more than the files that there are, Install/Link and
--     Install/Outcome are on the steps behind the checks.
--   Session: the directories of sessions, one per id, with a state file that may be unreadable; `Disk`
--     decides which writes fail and what they leave. Session/Store has its laws, Session/Lifecycle the
--     results of aborting, marking ready and deleting.
--   Host: what the daemon is told by the rest of the device, and the trace of its calls; a session that is
--     written is an event. Host/Writes is on writes that succeed.
--   Submit, Staging, Revert: `SubmitStagedSession`; `ScanStagedSessionsDirAndStage` and
--     `MarkStagedSessionSuccessful`; `RevertActiveSessions` and `ResumeRevertIfNeeded`. The files under
--     them hold their theorems.
--   Active, Stage: the active directory and its backup as lists of files: `BackupActivePackages`,
--     `RestoreActivePackages` and `DeleteBackup`; `StagePackages` and
--     `RemovePreviouslyActiveApexFiles`. Active/RoundTrip, Stage/Removal,
--     Stage/Loop and Stage/Success hold their theorems.
--     `Host` takes the answers of these functions as given, so Submit, Staging and Revert hold for
--     whatever they answer.
--   Decompress: `ProcessCompressedApex`, `ValidateDecompressedApex` and `ApexFile::Decompress`
--     (apexd/apex_file.cpp) over a map of files; Decompress/Valid is on what they return.
--   Boot, Cleanup: functions over lists of packages and files: the activation by one worker,
--     `ActivateMissingApexes` (Boot/Fallback) and `RemountPackages`; `RemoveInactiveDataApex`
--     (Cleanup/Removal) and `UnstagePackages` (Cleanup/Unstage).
--   Snapshot: `SnapshotDataDirectory`, `RestoreDataDirectory` and `SnapshotOrRestoreDeSysData`, with
--     `ReplaceFiles` (apexd/apexd_rollback_utils.h). Snapshot/RoundTrip is on a restore after a snapshot,
--     Snapshot/Missing on `RestorePreRestoreSnapshotsIfPresent` without one. Snapshot/Users adds the
--     snapshots of users and the deletions, Snapshot/Destroy is on what these leave.
--   Verity: `PrepareHashTree` (apexd/apexd_verity.cpp), with `GenerateHashTree`, `CalculateRootDigest` and
--     texts in hexadecimal (Verity/Hex). Verity/Digest is on the file that it leaves.
--   Loop: apexd/apexd_loop.cpp: `WaitForDevice` (Loop/Wait), `CreateLoopDevice` and
--     `ConfigureLoopDevice` (Loop/Configure), `PreAllocateLoopDevices` (Loop/Allocate). Mount takes the
--     answers of these functions and of `PrepareHashTree` as given.
--   Shim: apexd/apex_shim.cpp: `CalculateSha512` (Shim/Hash), `ValidateUpdate` (Shim/Update) and
--     `ValidateShimApex` (Shim/Content).
--   Hooks: `PrePostinstallPackages` (Hooks/Clean) and `StageFnInstall` of apexd/apexd_prepostinstall.cpp
--     (Hooks/Arguments), over the database of mounts and `UnmountTempMount` of Unmount.
--   Lifecycle: apexd/apexd_lifecycle.cpp and `RevertActiveSessionsAndReboot`, which call the revert of
--     Revert; Lifecycle/Crash is on a crash during the boot.
--   Service: apexd/apexservice.cpp as a client of the modules above: Service/Sessions calls Submit,
--     Staging, Session and Revert, Service/Packages calls Activate, Install, Cleanup, Boot, Stage and
--     Snapshot, Service/Space holds `ReserveSpaceForCompressedApex`. Service/Staged, Service/Guarded and
--     Service/Space/Reserved hold their theorems.
--   Tests, and the modules under it: concrete devices that the theorems are applied to.
--
-- How it is modelled. A function that changes state takes the state and returns its result with the new
-- state; a loop is recursion on the list it runs over. A scope guard is a function of the result it
-- guards. Strings of the system, such as paths, are texts, and session ids, which are only compared and
-- printed, are natural numbers. An `int64_t` version is an integer, and its conversion to an `int` takes
-- the low 32 bits (`to_int32`). Decimal digits run on fuel, one more than the number, which is more than
-- it has digits. The waits, for a loop device and for the end of the boot, and the reading of a file run on
-- fuel as well; their theorems say how much is enough. Error messages are shortened where they only
-- name paths.
--
-- Not modelled: the calls of the kernel themselves (loop devices, device mapper, mounts), what opens
-- the zip container and checks signatures, the process that a hook runs in, binder itself, the shell
-- commands of the service, vold, the boot sequence around these parts, and several workers that activate
-- packages at once. In
-- the models these are parameters: the records `Files`, `Host`, `Calls`, `Disk`, `Mounts`, `Device`,
-- `Services`, `Texts`, `Decompressor`, `FileCalls`, `UserCalls`, `HashTreeLibrary`, `VerityCalls`,
-- `LoopCalls`, `Sha512`, `ShimCalls`, `HookCalls`, `SpaceCalls` and `Watch`. An answer of
-- theirs does not change during one call of the daemon, but for what the two waits see round by round.
pub mod Activate
pub mod Active
pub mod ApexFile
pub mod Base
pub mod Boot
pub mod Cleanup
pub mod Database
pub mod Decompress
pub mod Files
pub mod Hooks
pub mod Host
pub mod Install
pub mod Lifecycle
pub mod Loop
pub mod Machine
pub mod Mount
pub mod Populate
pub mod Repository
pub mod Revert
pub mod Select
pub mod Service
pub mod Session
pub mod Shim
pub mod Snapshot
pub mod Stage
pub mod Staging
pub mod Submit
pub mod Tests
pub mod Unmount
pub mod Verity
