-- ===== src/Hooks/Arguments.antt =====
-- Which arguments the process of a hook is started with.
use platform_system_apex.Base.{
  ℕ, suc, ◌+◌, String, true, false, none, some, List, [], ◌∷◌, ◌++◌, any, length, ◌≡◌, refl, ap,
  ◌∙◌, arith, if◌then◌else◌, branch_false, Bool-cases, inl, inr,
}
use platform_system_apex.Base.Result.{ok, err}
use platform_system_apex.ApexFile.{ApexFile}
use platform_system_apex.Hooks.{
  Hook, HookCalls, has_hook, hook_index, nth, without_nth, stage_fn_install,
}

module _ (hook : Hook) where
  hook_index-some :
      (apexes : List ApexFile) (i j : ℕ)
      → hook_index hook apexes i (some j) ≡ (
          if any (has_hook hook) apexes
          then err "Missing support for multiple hooks"
          else ok (some j))
  unfolding hook_index
  hook_index-some [] i j = refl
  hook_index-some (a ∷ apexes) i j = elim (Bool-cases (has_hook hook a)) [
    | inl has ↦ rw has refl
    | inr lacks ↦ rw lacks (hook_index-some apexes (suc i) j)
  ]

  hook_index-skips :
      (before rest : List ApexFile) (i : ℕ)
      → any (has_hook hook) before ≡ false
      → hook_index hook (before ++ rest) i none ≡ hook_index hook rest (i + length before) none
  unfolding hook_index
  hook_index-skips [] rest i h = ap (λ k. hook_index hook rest k none) (omega arith)
  hook_index-skips (a ∷ before) rest i h =
      let lacks : has_hook hook a ≡ false = ground (arith, h) in
      let later : any (has_hook hook) before ≡ false = ground (arith, h) in
      ap (hook_index hook (before ++ rest) (suc i)) (branch_false _ _ lacks)
      ∙ hook_index-skips before rest (suc i) later
      ∙ ap (λ k. hook_index hook rest k none) (omega arith)

nth-middle :
    (before after : List String) (p : String) → nth (length before) (before ++ p ∷ after) ≡ some p
nth-middle [] after p = refl
nth-middle (b ∷ before) after p = nth-middle before after p

without_nth-middle :
    (before after : List String) (p : String)
    → without_nth (length before) (before ++ p ∷ after) ≡ before ++ after
without_nth-middle [] after p = refl
without_nth-middle (b ∷ before) after p = ap (λ ps. b ∷ ps) (without_nth-middle before after p)

-- Among packages with a mount point each, of which the first one with the hook is `apex`: if another one
-- has the hook too, `StageFnInstall` fails and starts nothing. Otherwise it starts one process, with
-- the mount point of `apex` first and those of the others behind it, in their order.
pub stage_fn_install-runs :
    (hook : Hook) (arg : String) (calls : HookCalls) (before after : List ApexFile)
    (apex : ApexFile) (points_before points_after : List String) (point : String)
    → length points_before ≡ length before
    → any (has_hook hook) before ≡ false
    → has_hook hook apex ≡ true
    → stage_fn_install hook arg calls
        (before ++ apex ∷ after)
        (points_before ++ point ∷ points_after)
      ≡ (if any (has_hook hook) after
          then err "Missing support for multiple hooks"
          else calls.fork_and_run
              ("/system/bin/apexd" ∷ arg ∷ point ∷ (points_before ++ points_after)))
unfolding stage_fn_install hook_index
stage_fn_install-runs hook arg calls before after apex points_before points_after point same
      none_before has =
    let points = points_before ++ point ∷ points_after in
    let found = hook_index-skips hook before (apex ∷ after) 0 none_before in
    let first : hook_index hook (apex ∷ after) (0 + length before) none
        ≡ hook_index hook after (suc (0 + length before)) (some (0 + length before)) =
      rw has refl in
    let index : hook_index hook (before ++ apex ∷ after) 0 none ≡ (
        if any (has_hook hook) after
        then err "Missing support for multiple hooks"
        else ok (some (length points_before))) =
      found
      ∙ first
      ∙ hook_index-some hook after _ _
      ∙ ap
          (λ k.
            if any (has_hook hook) after
            then err "Missing support for multiple hooks"
            else ok (some k))
          (omega arith) in
    rw index (elim (Bool-cases (any (has_hook hook) after)) [
      | inl more ↦ rw more refl
      | inr no_more ↦
          rw
            (
              no_more,
              nth-middle points_before points_after point,
              without_nth-middle points_before points_after point,
            )
            refl
    ])
