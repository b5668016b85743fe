-- ===== src/Command/Process.antt =====
-- A process around its root command: `NewRootCmd` and `Execute` of pkg/common/cmd/root.go, and the
-- `main` functions under cmd. The library cobra is the record `Cobra`.
use openim_project_template.Base.{
  String, string_eq, ◌≡◌, ◌↔◌, refl, List, Res, ok, err, panics, Act, ◌>>◌, arith,
}
use openim_project_template.Base.Dict.{Dict, lookup}
use openim_project_template.Errors.{Error}
use openim_project_template.Config.Env.{log_config_file_name}
use openim_project_template.Startup.{Log}
use openim_project_template.Command.{RootCmd, Flags, CmdOpts, persistent_pre_run}
use openim_project_template.Command.Structs.{Kind, Struct, Platform, load_into, log_in}

-- The command and what it has loaded, and the log of the effects of the start.
pub record Process : Type 0 where
  pub cmd : RootCmd Struct
  pub log : Log

-- `cobra.Command`, with the fields that the code sets, on the flags it has parsed.
pub record Cmd : Type 0 where
  -- `PersistentPreRunE`
  pub persistent_pre_run_e : Flags → Act Process (Unit {0})
  -- `RunE`
  pub run_e : Act Process (Unit {0})

pub record Cobra : Type 0 where
  -- `cmd.Execute()`, on the arguments of the program
  pub execute : Cmd → List String → Act Process (Unit {0})

-- What the arguments of a program are: an error, a request for help, or flags.
pub data Parsed : Type 0 where
  bad : Error → Parsed
  help : Parsed
  flags : Flags → Parsed

-- An error of the arguments is answered, help is printed, and otherwise the persistent pre-run comes
-- before the run, which an error of the former keeps from running.
pub record IsLawful (K : Cobra) : Type 0 where
  pub parse : List String → Parsed
  pub executes :
      (c : Cmd) (args : List String) (s : Process)
      → K.execute c args s ≡ elim (parse args) [
        | bad e ↦ (err e, s)
        | help ↦ (ok tt, s)
        | flags f ↦ (c.persistent_pre_run_e f >> c.run_e) s
      ]

-- How a program ends: by itself, by `program.ExitWithError`, or by a panic.
pub data Exit : Type 0 where
  finished crashed : Exit
  exit_with_error : Error → Exit

-- `main` of the programs, on what `Exec` answers
abbrev pub exit_of : Res (Unit {0}) → Exit
exit_of (ok u) = finished
exit_of (err e) = exit_with_error e
exit_of panics = crashed

pub exit_of-finished_iff : (r : Res (Unit {0})) → (exit_of r ≡ finished) ↔ (r ≡ ok tt)
exit_of-finished_iff (ok u) = (λ h. refl, λ h. refl)
exit_of-finished_iff (err e) = (λ h. absurd (ground arith), λ h. absurd (ground arith))
exit_of-finished_iff panics = (λ h. absurd (ground arith), λ h. absurd (ground arith))

abbrev pub in_cmd : {A : Type 0} → Act (RootCmd Struct) A → Act Process A
in_cmd m s = ((m s.cmd).0, record s { cmd = (m s.cmd).1 })

-- A start that is given the command.
abbrev pub in_log : {A : Type 0} → (RootCmd Struct → Act Log A) → Act Process A
in_log m s = ((m s.cmd s.log).0, record s { log = (m s.cmd s.log).1 })

module _ (P : Platform) (structs : Dict String Kind) where
  abbrev pub file_logger : String → Dict String Struct → Res (Unit {0})
  file_logger name loaded = P.init_logger name (log_in (lookup log_config_file_name loaded))

  abbrev pub console_logger : Dict String Struct → Res (Unit {0})
  console_logger loaded = P.init_console (log_in (lookup log_config_file_name loaded))

  -- `NewRootCmd`, with the `RunE` that is set on the command afterwards.
  unfoldable pub new_root_cmd : List (CmdOpts → CmdOpts) → Act Process (Unit {0}) → Cmd
  new_root_cmd opts run = record {
    persistent_pre_run_e =
        λ f. in_cmd (persistent_pre_run (load_into P structs) file_logger console_logger f opts);
    run_e = run;
  }
