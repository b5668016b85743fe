-- ===== src/Command/Prepared.antt =====
-- What has to succeed before the `RunE` of a command runs, and what it then finds.
use openim_project_template.Base.{
  String, string_eq, contains, true, some, ◌≡◌, ◌↔◌, refl, List, [], ◌∷◌, ◌++◌, Res, ok, err,
  panics, All, arith, inl, inr, Res-cases, sym, ◌∙◌,
}
use openim_project_template.Base.Dict.{Dict, lookup}
use openim_project_template.Tools.{Index}
use openim_project_template.Config.Env.{log_config_file_name}
use openim_project_template.Command.{
  RootCmd, Flags, CmdOpts, persistent_pre_run, initialize_configuration, apply_options, logger,
  logger_failed,
}
use openim_project_template.Command.Files.{
  Loads, initialize_configuration-ok_iff, initialize_configuration_lem,
}

logger_ok :
    (file console : Res (Unit {0}))
    → (logger_failed (logger file console) ≡ ok tt) ↔ ((file ≡ ok tt) × (console ≡ ok tt))
logger_ok (ok u) (ok v) = (λ h. (refl, refl), λ h. refl)
logger_ok (ok u) (err e) = (λ h. absurd (ground arith), λ h. absurd (ground arith))
logger_ok (ok u) panics = (λ h. absurd (ground arith), λ h. absurd (ground arith))
logger_ok (err e) console = (λ h. absurd (ground arith), λ h. absurd (ground arith))
logger_ok panics console = (λ h. absurd (ground arith), λ h. absurd (ground arith))

module _ {A : Type 0} (load : String → String → Res A)
    (file_logger : String → Dict String A → Res (Unit {0}))
    (console_logger : Dict String A → Res (Unit {0})) (flags : Flags)
    (opts : List (CmdOpts → CmdOpts)) (r : RootCmd A) where
  abbrev o : CmdOpts
  o = apply_options opts

  -- The command after its configuration.
  abbrev pub configured : RootCmd A
  configured = (initialize_configuration load flags o r).1

  -- With these flags, every file is loaded and both loggers start.
  pub record IsPrepared (directory : String) (i : Index) : Type 0 where
    pub has_directory : flags.conf ≡ ok directory
    pub has_index : flags.index ≡ ok i
    pub loads : All (Loads load directory) (o.config_map ++ log_config_file_name ∷ [])
    pub logs_to_file : file_logger o.logger_prefix_name configured.loaded ≡ ok tt
    pub logs_to_console : console_logger configured.loaded ≡ ok tt

  pub state-persistent_pre_run :
      (persistent_pre_run load file_logger console_logger flags opts r).1 ≡ configured
  unfolding persistent_pre_run
  state-persistent_pre_run = elim (Res-cases (initialize_configuration load flags o r).0) [
    | inl (u, fine) ↦ rw fine refl
    | inr (inl (e, failed)) ↦ rw failed refl
    | inr (inr panicked) ↦ rw panicked refl
  ]

  flags-of_ok :
      (initialize_configuration load flags o r).0 ≡ ok tt
      → (directory : String) × (i : Index) × (flags.conf ≡ ok directory) × (flags.index ≡ ok i)
  unfolding initialize_configuration
  flags-of_ok h = elim (Res-cases flags.conf) [
    | inl (directory, e) ↦ elim (Res-cases flags.index) [
      | inl (i, e') ↦ (directory, i, e, e')
      | inr (inl (x, failed)) ↦ absurd (ground (arith, e, failed))
      | inr (inr panicked) ↦ absurd (ground (arith, e, panicked))
    ]
    | inr (inl (x, failed)) ↦ absurd (ground (arith, failed))
    | inr (inr panicked) ↦ absurd (ground (arith, panicked))
  ]

  answer-configured :
      (initialize_configuration load flags o r).0 ≡ ok tt
      → (persistent_pre_run load file_logger console_logger flags opts r).0
        ≡ logger_failed (
            logger
              (file_logger o.logger_prefix_name configured.loaded)
              (console_logger configured.loaded))
  unfolding persistent_pre_run
  answer-configured h = rw h refl

  configured-of_ok :
      (persistent_pre_run load file_logger console_logger flags opts r).0 ≡ ok tt
      → (initialize_configuration load flags o r).0 ≡ ok tt
  unfolding persistent_pre_run
  configured-of_ok h = elim (Res-cases (initialize_configuration load flags o r).0) [
    | inl (u, fine) ↦ fine
    | inr (inl (e, failed)) ↦ absurd (ground (arith, failed))
    | inr (inr panicked) ↦ absurd (ground (arith, panicked))
  ]

  pub persistent_pre_run-ok_iff :
      ((persistent_pre_run load file_logger console_logger flags opts r).0 ≡ ok tt)
      ↔ ((directory : String) × (i : Index) × IsPrepared directory i)
  persistent_pre_run-ok_iff = (
    λ h.
        let done = configured-of_ok h in
        let (directory, i, conf, index) = flags-of_ok done in
        let (file, console) = (logger_ok _ _).0 (sym (answer-configured done) ∙ h) in
        (
          directory,
          i,
          record {
            has_directory = conf;
            has_index = index;
            loads = (initialize_configuration-ok_iff load directory flags i conf index o r).0 done;
            logs_to_file = file;
            logs_to_console = console;
          },
        ),
    λ (directory, i, p).
        let done =
          (initialize_configuration-ok_iff load directory flags i p.has_directory p.has_index o r).1
            p.loads in
        answer-configured done ∙ (logger_ok _ _).1 (p.logs_to_file, p.logs_to_console),
  )

  module _ (directory : String) (i : Index) (conf : flags.conf ≡ ok directory)
      (index : flags.index ≡ ok i)
      (loads : All (Loads load directory) (o.config_map ++ log_config_file_name ∷ [])) where
    configuration_done : (initialize_configuration load flags o r).0 ≡ ok tt
    configuration_done =
        (initialize_configuration-ok_iff load directory flags i conf index o r).1 loads

    pub index-configured : configured.index ≡ i
    index-configured =
        (initialize_configuration_lem load directory flags i conf index o r configuration_done).0

    -- Each file is found as it was loaded.
    pub lookup-configured :
        (k : String)
        → contains (o.config_map ++ log_config_file_name ∷ []) k ≡ true
        → (a : A) × (load directory k ≡ ok a) × (lookup k configured.loaded ≡ some a)
    lookup-configured k h =
        elim ((initialize_configuration_lem load directory flags i conf index o r
            configuration_done).1
          k) [
            | inl (_, a, read, found) ↦ (a, read, found)
            | inr (absent, _) ↦ absurd (ground (arith, h, absent))
          ]
