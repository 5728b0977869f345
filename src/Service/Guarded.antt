-- ===== src/Service/Guarded.antt =====
-- Which calls of the service are refused, and that a refused call changes nothing.
use platform_system_apex.Base.{
  String, Bool, true, false, ◌&&◌, ◌||◌, not, ◌≡◌, refl, arith, eqb, if◌then◌else◌,
}
use platform_system_apex.Base.Result.{Result, ok, err, fatal}
use platform_system_apex.Machine.{Machine, Services}
use platform_system_apex.Machine.{Texts}
use platform_system_apex.Activate.{activate_package, deactivate_package}
use platform_system_apex.Cleanup.{unstage_packages}
use platform_system_apex.Boot.{remount_packages}
use platform_system_apex.Install.Package.{install_package}
use platform_system_apex.Service.{
  Caller, BinderStatus, okay, exception, died, ex_security, ex_service_specific,
  ex_illegal_argument, to_status, behind, aid_root,
}
use platform_system_apex.Service.Packages.{
  PackageCall, call_activate, call_deactivate, call_unstage, call_remount, call_install,
  serve_package,
}

abbrev pub is_security : BinderStatus → Bool
is_security okay = false
is_security (exception ex_security message) = true
is_security (exception ex_service_specific message) = false
is_security (exception ex_illegal_argument message) = false
is_security (died message) = false

abbrev pub for_debuggable : PackageCall → Bool
for_debuggable (call_activate path) = true
for_debuggable (call_deactivate path) = true
for_debuggable call_remount = true
for_debuggable (call_unstage paths) = false
for_debuggable (call_install path) = false

abbrev pub for_root : PackageCall → Bool
for_root call_remount = true
for_root (call_activate path) = false
for_root (call_deactivate path) = false
for_root (call_unstage paths) = false
for_root (call_install path) = false

-- What the calls ask of the device and of the caller
abbrev pub is_refused : Caller → PackageCall → Bool
is_refused caller call =
    (for_debuggable call && not caller.is_debuggable)
    || (for_root call && not (eqb caller.uid aid_root))

to_status-not_security {ℓ} :
    {A : Type ℓ} (r : Result A) → is_security (to_status ex_service_specific r) ≡ false
to_status-not_security (ok a) = refl
to_status-not_security (err e) = refl
to_status-not_security (fatal e) = refl

-- A call behind the checks of the device and of the caller
one_check :
    (allowed other : Bool) (message : String) (call : Machine → BinderStatus × Machine)
    (m : Machine)
    → is_security (call m).0 ≡ false
    → let r = behind (if allowed then okay else exception ex_security message) call m in
      (is_security r.0 ≡ ((true && not allowed) || (false && not other)))
      × (((true && not allowed) || (false && not other)) ≡ true → r.1 ≡ m)
one_check true other message call m inner = (inner, λ e. absurd (ground (arith, e)))
one_check false other message call m inner = (refl, λ e. refl)

two_checks :
    (allowed root : Bool) (message name : String) (call : Machine → BinderStatus × Machine)
    (m : Machine)
    → is_security (call m).0 ≡ false
    → let r =
        behind
          (if allowed then okay else exception ex_security message)
          (behind (if root then okay else exception ex_security name) call)
          m in
      (is_security r.0 ≡ ((true && not allowed) || (true && not root)))
      × (((true && not allowed) || (true && not root)) ≡ true → r.1 ≡ m)
two_checks true true message name call m inner = (inner, λ e. absurd (ground (arith, e)))
two_checks true false message name call m inner = (refl, λ e. refl)
two_checks false root message name call m inner = (refl, λ e. refl)

-- A call on packages is answered by a security exception exactly if it is for debuggable devices only and
-- the device is none, or for root only and the caller is another; and then nothing is changed.
pub serve_package-refused :
    (caller : Caller) (s : Services) (texts : Texts) (call : PackageCall) (m : Machine)
    → (is_security (serve_package caller s texts call m).0 ≡ is_refused caller call)
      × (is_refused caller call ≡ true → (serve_package caller s texts call m).1 ≡ m)
unfolding serve_package
serve_package-refused caller s texts (call_activate path) m =
    one_check caller.is_debuggable (eqb caller.uid aid_root) _ _ m
      (to_status-not_security (activate_package s path m).0)
serve_package-refused caller s texts (call_deactivate path) m =
    one_check caller.is_debuggable (eqb caller.uid aid_root) _ _ m
      (to_status-not_security (deactivate_package s path m).0)
serve_package-refused caller s texts (call_unstage paths) m =
    (to_status-not_security (unstage_packages s paths m).0, λ e. absurd (ground (arith, e)))
serve_package-refused caller s texts call_remount m =
    two_checks caller.is_debuggable (eqb caller.uid aid_root) _ _ _ m
      (to_status-not_security (remount_packages s m).0)
serve_package-refused caller s texts (call_install path) m =
    (to_status-not_security (install_package s texts path m).0, λ e. absurd (ground (arith, e)))
