-- ===== src/Command/UserRpcCmd/Configured.antt =====
-- How the program of the user service (pkg/common/cmd/user.go and its main) ends, and what it does.
use openim_project_template.Base.{
  String, string_eq, ◌≡◌, ◌↔◌, ◌⊎◌, refl, List, [], ◌∷◌, ok, inl, inr, contains, ap, ◌∙◌,
}
use openim_project_template.Tools.{DataUtil, Index}
use openim_project_template.Startup.{Resource, listener, client, server}
use openim_project_template.Startup.Rpc
use openim_project_template.Startup.Rpc.Closing.{start-Nests}
use openim_project_template.Startup.Scopes.{Nests, Adds, Adds-refl}
use openim_project_template.Command.{Flags, with_config_map, user_rpc_config_map}
use openim_project_template.Command.Structs.{Platform}
use openim_project_template.Command.Process.{
  Process, Cobra, IsLawful, flags, help, finished, exit_of-finished_iff,
}
use openim_project_template.Command.Execution.{execute-ok_iff, execute_opens}
use openim_project_template.Command.UserRpcCmd.{
  user_rpc_structs, run_e, start_with, Config, IsConfigured, new_user_rpc_cmd, exec, main,
}
use openim_project_template.User.Server.Start.{Driver}
use openim_project_template.Command.UserRpcCmd.Ready.{
  IsConfigured-of_ready, Ready-of_configured, run_e-configured,
}

-- What the start opens, in this order.
abbrev pub resources : List Resource
resources = listener ∷ client ∷ server ∷ []

module _ (P : Platform) (D : DataUtil) (w : Rpc.World) (M : Driver) (K : Cobra) (L : IsLawful K)
    (order : List String) (same : (k : String) → contains order k ≡ contains user_rpc_config_map k)
    (args : List String) (s : Process) where
  -- With cobra as documented and the map of files ranged over in any order, the program of the
  -- user service ends by itself exactly if it is asked for help, or its arguments name a
  -- directory and an index, all five configuration files are loaded from their own paths, both
  -- loggers start, and Start on what the files hold answers nil.
  pub main-finished_iff : (main P D w M K order args s ≡ finished) ↔ (
      (L.parse args ≡ help)
      ⊎ ((f : Flags) × (directory : String) × (i : Index) × (c : Config) × (L.parse args ≡ flags f)
          × IsConfigured P directory f i c
          × ((start_with P D w M c i s.log).0 ≡ ok tt)))
  unfolding main exec new_user_rpc_cmd
  main-finished_iff = (
    λ h.
        elim ((execute-ok_iff P user_rpc_structs K L (with_config_map order ∷ []) (run_e P D w M)
            args s).0
          ((exit_of-finished_iff _).0 h)) [
            | inl parsed ↦ inl parsed
            | inr (f, p, fine) ↦
                let (c, configured_, is_c, is_i) =
                  IsConfigured-of_ready P order same f s.cmd p.directory p.index p.prepared in
                inr (f, p.directory, p.index, c, p.parsed, configured_, rw (is_c, is_i) at fine)
          ],
    λ h. (exit_of-finished_iff _).1 (
        (execute-ok_iff P user_rpc_structs K L (with_config_map order ∷ []) (run_e P D w M) args
            s).1
          (elim h [
            | inl parsed ↦ inl parsed
            | inr (f, directory, i, c, parsed, h', fine) ↦ inr (
              f,
              record {
                parsed = parsed;
                directory = directory;
                index = i;
                prepared = Ready-of_configured P order same f s.cmd directory i c h';
              },
              ap (λ m. (m s.log).0) (run_e-configured P order same f s.cmd directory i c h' D w M)
                  ∙ fine,
            )
          ])),
  )

  start_with-Nests : (c : Config) (i : Index) → Nests resources (start_with P D w M c i)
  unfolding start_with
  start_with-Nests c i = start-Nests D _ c.discovery c.rpc.prometheus _ _ _ i _ _

  -- With cobra as documented and the map of files ranged over in any order, the program of the
  -- user service either has no effect, or its arguments name a directory from which all five
  -- configuration files are loaded, both loggers start, and its effects are those of Start on
  -- what the files hold. On every path it opens the listener, inside of it the client of the
  -- discovery and inside of both the server, or only the first of these, its deferred calls
  -- close what it has opened once each, the last one opened first, and its other effects, the
  -- GracefulStop after a signal among them, come where all three are open.
  pub exec_opens :
      (((exec P D w M K order args s).1.log ≡ s.log)
        ⊎ ((f : Flags) × (directory : String) × (i : Index) × (c : Config) × (L.parse args
              ≡ flags f)
            × IsConfigured P directory f i c
            × ((exec P D w M K order args s).1.log ≡ (start_with P D w M c i s.log).1)))
      × Adds resources s.log (exec P D w M K order args s).1.log
  unfolding exec new_user_rpc_cmd
  exec_opens =
      elim (execute_opens P user_rpc_structs K L (with_config_map order ∷ []) (run_e P D w M) args
        s) [
          | inl same_ ↦ (inl same_, rw same_ (Adds-refl resources s.log))
          | inr (f, p, log) ↦
              let (c, configured_, is_c, is_i) =
                IsConfigured-of_ready P order same f s.cmd p.directory p.index p.prepared in
              let started = log ∙ rw (is_c, is_i) refl in
              (
                inr (f, p.directory, p.index, c, p.parsed, configured_, started),
                rw started ((start_with-Nests c p.index).adds s.log),
              )
        ]
