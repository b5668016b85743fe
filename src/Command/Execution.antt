-- ===== src/Command/Execution.antt =====
-- What executing a command answers and opens, for any `RunE`.
use openim_project_template.Base.{
  String, string_eq, ◌≡◌, ◌≢◌, ◌↔◌, ◌⊎◌, refl, List, Res, ok, err, panics, arith, inl, inr, sym,
  ◌∙◌, Res-cases, Act,
}
use openim_project_template.Base.Dict.{Dict}
use openim_project_template.Errors.{Error}
use openim_project_template.Tools.{Index}
use openim_project_template.Startup.{Log}
use openim_project_template.Command.{RootCmd, Flags, CmdOpts, persistent_pre_run}
use openim_project_template.Command.Structs.{Kind, Struct, Platform, load_into}
use openim_project_template.Command.Prepared
use openim_project_template.Command.Prepared.{persistent_pre_run-ok_iff, state-persistent_pre_run}
use openim_project_template.Command.Process.{
  Process, Cmd, Cobra, IsLawful, Parsed, bad, help, flags, new_root_cmd, in_log, file_logger,
  console_logger,
}

pub Parsed-cases :
    (p : Parsed) → ((e : Error) × (p ≡ bad e)) ⊎ ((p ≡ help) ⊎ ((f : Flags) × (p ≡ flags f)))
Parsed-cases (bad e) = inl (e, refl)
Parsed-cases help = inr (inl refl)
Parsed-cases (flags f) = inr (inr (f, refl))

ok_or_not : (r : Res (Unit {0})) → (r ≡ ok tt) ⊎ (r ≢ ok tt)
ok_or_not (ok u) = inl refl
ok_or_not (err e) = inr (λ h. absurd (ground arith))
ok_or_not panics = inr (λ h. absurd (ground arith))

module _ (P : Platform) (structs : Dict String Kind) (K : Cobra) (L : IsLawful K)
    (opts : List (CmdOpts → CmdOpts)) (start : RootCmd Struct → Act Log (Unit {0}))
    (args : List String) (s : Process) where
  abbrev command : Cmd
  command = new_root_cmd P structs opts (in_log start)

  abbrev pre_run : Flags → Res (Unit {0}) × RootCmd Struct
  pre_run f =
      persistent_pre_run (load_into P structs) (file_logger P structs) (console_logger P structs) f
        opts s.cmd

  abbrev pub configured : Flags → RootCmd Struct
  configured f =
      Prepared.configured (load_into P structs) (file_logger P structs) (console_logger P structs) f
        opts s.cmd

  -- The arguments are these flags, and everything before the start succeeds.
  pub record Prepares (f : Flags) : Type 0 where
    pub parsed : L.parse args ≡ flags f
    pub directory : String
    pub index : Index
    pub prepared :
        Prepared.IsPrepared
          (load_into P structs)
          (file_logger P structs)
          (console_logger P structs)
          f
          opts
          s.cmd
          directory
          index

  -- A command whose pre-run does not succeed, and one whose does.
  execute-stopped :
      (f : Flags)
      → L.parse args ≡ flags f
      → (pre_run f).0 ≢ ok tt
      → ((K.execute command args s).0 ≢ ok tt) × ((K.execute command args s).1.log ≡ s.log)
  unfolding new_root_cmd
  execute-stopped f parsed h = elim (Res-cases (pre_run f).0) [
    | inl (u, fine) ↦ absurd (h fine)
    | inr (inl (e, failed)) ↦
        rw (L.executes command args s, parsed, failed) (λ p. absurd (ground arith), refl)
    | inr (inr panicked) ↦
        rw (L.executes command args s, parsed, panicked) (λ p. absurd (ground arith), refl)
  ]

  execute-started :
      (f : Flags)
      → L.parse args ≡ flags f
      → (pre_run f).0 ≡ ok tt
      → ((K.execute command args s).0 ≡ (start (configured f) s.log).0)
        × ((K.execute command args s).1.log ≡ (start (configured f) s.log).1)
  unfolding new_root_cmd
  execute-started f parsed h =
      let same =
        state-persistent_pre_run (load_into P structs) (file_logger P structs)
          (console_logger P structs) f opts s.cmd in
      rw (L.executes command args s, parsed, h, same) (refl, refl)

  prepares : (f : Flags) → L.parse args ≡ flags f → (pre_run f).0 ≡ ok tt → Prepares f
  prepares f parsed h =
      let (directory, i, p) =
        (persistent_pre_run-ok_iff (load_into P structs) (file_logger P structs)
            (console_logger P structs) f opts s.cmd).0
          h in
      record { parsed = parsed; directory = directory; index = i; prepared = p }

  ok-of_Prepares : (f : Flags) → Prepares f → (pre_run f).0 ≡ ok tt
  ok-of_Prepares f p =
      (persistent_pre_run-ok_iff (load_into P structs) (file_logger P structs)
          (console_logger P structs) f opts s.cmd).1
        (p.directory, p.index, p.prepared)

  pre_run_ok :
      (f : Flags)
      → L.parse args ≡ flags f
      → (K.execute command args s).0 ≡ ok tt
      → (pre_run f).0 ≡ ok tt
  pre_run_ok f parsed h = elim (ok_or_not (pre_run f).0) [
    | inl fine ↦ fine
    | inr stopped ↦ absurd ((execute-stopped f parsed stopped).0 h)
  ]

  pub execute-ok_iff : ((K.execute command args s).0 ≡ ok tt) ↔ (
      (L.parse args ≡ help) ⊎ ((f : Flags) × Prepares f × ((start (configured f) s.log).0 ≡ ok tt)))
  execute-ok_iff = (
    λ h. elim (Parsed-cases (L.parse args)) [
      | inl (e, parsed) ↦ absurd (ground (arith, L.executes command args s, parsed))
      | inr (inl parsed) ↦ inl parsed
      | inr (inr (f, parsed)) ↦
          let fine = pre_run_ok f parsed h in
          inr (f, prepares f parsed fine, sym (execute-started f parsed fine).0 ∙ h)
    ],
    λ h. elim h [
      | inl parsed ↦ rw (L.executes command args s, parsed) refl
      | inr (f, p, fine) ↦ (execute-started f p.parsed (ok-of_Prepares f p)).0 ∙ fine
    ],
  )

  pub execute_opens :
      ((K.execute command args s).1.log ≡ s.log)
      ⊎ ((f : Flags) × Prepares f
          × ((K.execute command args s).1.log ≡ (start (configured f) s.log).1))
  execute_opens = elim (Parsed-cases (L.parse args)) [
    | inl (e, parsed) ↦ inl (rw (L.executes command args s, parsed) refl)
    | inr (inl parsed) ↦ inl (rw (L.executes command args s, parsed) refl)
    | inr (inr (f, parsed)) ↦ elim (ok_or_not (pre_run f).0) [
      | inl fine ↦ inr (f, prepares f parsed fine, (execute-started f parsed fine).1)
      | inr bad_ ↦ inl (execute-stopped f parsed bad_).1
    ]
  ]
