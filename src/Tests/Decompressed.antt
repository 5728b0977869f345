-- ===== src/Tests/Decompressed.antt =====
-- A compressed APEX on a system partition, and a stale decompressed file.
use platform_system_apex.Base.{true, false, [], ◌∷◌, refl, inr}
use platform_system_apex.Base.Int.{pos}
use platform_system_apex.Base.Result.{ok}
use platform_system_apex.ApexFile.{ApexFile}
use platform_system_apex.Tests.{apex, manifest}
use platform_system_apex.Decompress.{Decompressor, FileMap, process_compressed_apex}
use platform_system_apex.Decompress.Valid.{
  ProcessOutcome, decompression_dest, process_compressed_apex-Validated,
}

abbrev capex : ApexFile
capex = record (apex "/system/apex/wifi.capex" "wifi" (pos 2)) {
  manifest = record (manifest "wifi" (pos 2)) { original_apex_digest = "digest" };
  is_compressed = true;
}

abbrev decompressor : Decompressor
decompressor = record {
  decompression_dir = "/data/apex/decompressed";
  can_stat = λ path. true;
  can_unlink = λ path. true;
  can_rename = λ from to. true;
  can_create = λ path. true;
  find_original = λ file. ok tt;
  extract_entry = λ file. ok (inr (apex "" "wifi" (pos 2)));
  restorecon_path = λ path. ok tt;
  verify_apex_verity =
      λ file key. ok (record { tree_size = 1; image_size = 4096; root_digest = "digest" });
}

abbrev stale : FileMap
stale =
    ("/data/apex/decompressed/wifi@2.decompressed.apex", inr (apex "" "wifi" (pos 1)))
    ∷ ("/system/apex/wifi.capex", inr capex)
    ∷ []

process_compressed_apex-Validated_example :
    ProcessOutcome decompressor capex false
      (decompression_dest decompressor capex false)
      (process_compressed_apex decompressor capex false stale)
process_compressed_apex-Validated_example =
    process_compressed_apex-Validated decompressor capex false stale refl
