-- ===== src/Tests/Processes.antt =====
-- The component check, the error codes, and how a process is configured.
use openim_project_template.Base.{
  ℕ, String, ◌≡◌, ◌↔◌, refl, ◌==◌, ◌||◌, Option, none, some, [], ◌∷◌, Res, ok, string_eq, nat_eq,
  arith, if◌then◌else◌,
}
use openim_project_template.Base.Dict.{lookup, insert}
use openim_project_template.Errors.{Error, new}
use openim_project_template.Tools.{at}
use openim_project_template.Checks.{passed, components, round, check, perform_checks}
use openim_project_template.Checks.Calls.{Ends, perform_checks-Ends}
use openim_project_template.Checks.Laws.{AllEver, perform_checks-passed_iff}
use openim_project_template.Relation.{Relation, add, is_child}
use openim_project_template.Relation.Laws.{precedes, is_child-add}
use openim_project_template.Config.Load.{Viper}
use openim_project_template.Command.{CmdOpts, RootCmd, Flags, api_config_map}

-- MongoDB answers from round 2 on, etcd in round 0 only.
abbrev env : ℕ → String → Option Error
env i name =
    if name == "Mongo"
    then (if i == 2 then none else some (new "refused"))
    else (if i == 0 then none else some (new "refused"))

perform_checks_three : (perform_checks env (λ i. components "etcd") 3).0 ≡ passed
unfolding perform_checks round check lookup insert string_eq nat_eq
perform_checks_three = refl

perform_checks-passed_iff_example :
    ((perform_checks env (λ i. components "etcd") 3).0 ≡ passed) ↔ AllEver env 3 (components "etcd")
perform_checks-passed_iff_example =
    perform_checks-passed_iff env (λ i. components "etcd") "etcd" 3 (λ i x. refl)

is_child-add_example :
    (m' : Relation) × (add (1 ∷ 2 ∷ 3 ∷ []) [] ≡ ok m')
    × ((p c : ℕ) → is_child m' p c ≡ (is_child [] p c || precedes p c (1 ∷ 2 ∷ 3 ∷ [])))
is_child-add_example = is_child-add (1 ∷ 2 ∷ 3 ∷ []) [] (omega arith)

-- Every file can be read; its configuration is its path.
abbrev viper : Viper String
viper = record { read = λ path. none; unmarshal = λ path prefix. ok path }

abbrev join : String → String → String
join a b = b

abbrev no_env : String → String
no_env name = ""

abbrev load_name : String → String → Res String
load_name directory file = ok file

abbrev flags : Flags
flags = record { conf = ok "/config"; index = ok (at 1) }

abbrev opts : CmdOpts
opts = record { logger_prefix_name = "openim-api"; config_map = api_config_map }

abbrev fresh_cmd : RootCmd String
fresh_cmd = record { index = at 0; loaded = [] }

perform_checks-Ends_example :
    Ends env (components "etcd") 3 (perform_checks env (λ i. components "etcd") 3)
perform_checks-Ends_example =
    perform_checks-Ends env (λ i. components "etcd") "etcd" 3 (λ i x. refl)

calls_of_three :
    (perform_checks env (λ i. components "etcd") 3).1.calls
    ≡ (0, "Mongo") ∷ (0, "Redis") ∷ (0, "Etcd") ∷ (1, "Mongo") ∷ (2, "Mongo") ∷ []
unfolding perform_checks round check lookup insert string_eq nat_eq
calls_of_three = refl
