-- ===== src/Tests/Sample.antt =====
-- The sample under deployments: names that are set and listed.
use openim_project_template.Base.{
  String, ◌≡◌, refl, ◌==◌, string_eq, if◌then◌else◌, none, List, [], ◌∷◌, ◌++◌, map, ok, Option,
}
use openim_project_template.Errors.{Error}
use openim_project_template.Deployments.{
  routes, set_username, get_usernames, grpc_address, Env, listen_port, Users,
}
use openim_project_template.Deployments.Laws.{IsLawful}

-- Outside Kubernetes, with a port of its own choice.
abbrev local_env : Env
local_env name = if name == "GRPC_PORT" then "6000" else ""

listens_on_default : listen_port local_env ≡ "50051"
unfolding listen_port string_eq
listens_on_default = refl

abbrev in_memory : Users
in_memory = record {
  State = List String;
  insert_one = λ name s. (none, s ++ name ∷ []);
  find = λ s. ok (map ok s);
}

abbrev in_memory_laws : IsLawful in_memory
in_memory_laws = record { names = λ s. s; finds = λ s. refl; inserts = λ name s h. refl }

abbrev reachable : String → Option Error
reachable address = none

abbrev new_names : List String
new_names = "ann" ∷ "bea" ∷ []

routes_local :
    routes local_env
    ≡ (("POST", "/set_username"), set_username "localhost:6000")
      ∷ (("GET", "/get_usernames"), get_usernames "localhost:6000")
      ∷ []
unfolding routes grpc_address string_eq
routes_local = refl
