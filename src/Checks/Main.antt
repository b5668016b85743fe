-- ===== src/Checks/Main.antt =====
-- The program of tools/check-component/main.go: `initConfig` and `main`, with `CheckMongo` and
-- `CheckEtcd` over the libraries that they call.
pub mod Ends
use openim_project_template.Base.{
  ℕ, zero, suc, ◌<◌, ◌*◌, String, ◌==◌, string_eq, if◌then◌else◌, Bool, true, false, ◌||◌, ◌≡◌, ◌↔◌,
  ◌⊎◌, refl, Option, none, some, List, [], ◌∷◌, Res, ok, err, panics, bind_res, arith, Res-cases,
  inl, inr, contains, Bool-cases, nat_eq, sym, ◌∙◌,
}
use openim_project_template.Errors.{Error}
use openim_project_template.Config.Settings.{Mongo, MongoConfig, build_mongo, Etcd, Discovery}
use openim_project_template.Config.Env.{mongodb_config_file_name, discovery_config_filename}
use openim_project_template.Command.Structs.{Platform, load_file}
use openim_project_template.Checks.{
  Verdict, passed, gave_up, max_retry, perform_checks, check, components,
}
use openim_project_template.Checks.Laws.{ever, AllEver, is_nil, perform_checks-passed_iff}

-- How the program ends: by itself, by `ExitWithError` on an error of the configuration or on that of
-- the checks, or by a panic.
pub data Ending : Type 0 where
  done : Ending
  config_error : Error → Ending
  checks_error : ℕ → Ending
  crashed : Ending

-- What the libraries answer, round by round.
pub record Libraries : Type 0 where
  -- `mongoutil.Check(ctx, config)`
  pub mongo_check : ℕ → MongoConfig → Option Error
  -- `etcd.Check` of addresses and a root directory, which it creates or not, with a dial timeout in
  -- seconds, a largest size of a message, a user name and a password
  pub etcd_check : ℕ → List String → String → Bool → ℕ → ℕ → String → String → Option Error

module _ (w : Libraries) where
  -- `CheckMongo`, in a round
  unfoldable pub check_mongo : ℕ → Mongo → Option Error
  check_mongo i m = w.mongo_check i (build_mongo m)

  -- `CheckEtcd`
  unfoldable pub check_etcd : ℕ → Etcd → Option Error
  check_etcd i e =
      w.etcd_check i e.address "/check_openim_component" true 10 (20 * 1024 * 1024) e.username
        e.password

  -- The functions of the map `checks` that call a library.
  unfoldable pub checks : Mongo → Discovery → ℕ → String → Option Error
  checks m d i name =
      if name == "Mongo"
      then check_mongo i m
      else if name == "Etcd"
      then check_etcd i d.etcd
      else none

-- `initConfig`, in the directory of the flag. The configuration of Redis is nil.
unfoldable pub init_config : Platform → String → Res (Mongo × Discovery)
init_config P directory =
    bind_res (load_file P P.mongo_viper directory mongodb_config_file_name) λ m.
      bind_res (load_file P P.discovery_viper directory discovery_config_filename) λ d. ok (m, d)

abbrev pub ending_of : Verdict → Ending
ending_of passed = done
ending_of (gave_up n) = checks_error n

module _ (w : Libraries) (order : Discovery → ℕ → List String) where
  -- `order` is the order in which each round ranges over the map `checks`.
  abbrev pub run_checks : Res (Mongo × Discovery) → Ending
  run_checks (ok (m, d)) = ending_of (perform_checks (checks w m d) (order d) max_retry).0
  run_checks (err e) = config_error e
  run_checks panics = crashed

  -- `main`, by the directory of its flag
  unfoldable pub main : Platform → String → Ending
  main P directory = run_checks (init_config P directory)
