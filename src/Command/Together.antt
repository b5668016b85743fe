-- ===== src/Command/Together.antt =====
-- The two programs beside each other: the user service registers at the discovery, where the API
-- process (internal/api/init.go) looks for it.
use openim_project_template.Base.{
  ℕ, ◌-◌, String, string_eq, ◌≡◌, ◌↔◌, true, none, List, [], ok, arith, inl, inr, contains, sym, ap,
  ◌∙◌,
}
use openim_project_template.Tools.{DataUtil, Index}
use openim_project_template.Discovery.{new_discovery_register}
use openim_project_template.Startup.{Log}
use openim_project_template.Startup.Registered.{has_registration}
use openim_project_template.Startup.Rpc
use openim_project_template.Startup.Rpc.Registration.{start-registers_iff}
use openim_project_template.Startup.Api
use openim_project_template.Startup.Api.{sigterm, start_in_time_iff}
use openim_project_template.Command.{RootCmd, Flags, api_config_map, user_rpc_config_map}
use openim_project_template.Command.Structs.{Struct, Platform}
use openim_project_template.Command.Process.{Process, Cobra, IsLawful, flags, finished}
use openim_project_template.Command.ApiCmd
use openim_project_template.Command.ApiCmd.Configured.{main-finished_iff_api}
use openim_project_template.Command.UserRpcCmd
use openim_project_template.Command.UserRpcCmd.Configured.{exec_opens}
use openim_project_template.User.Server.Start.{Driver}

module _ (P : Platform) (D : DataUtil) (w : Rpc.World) (M : Driver) (K : Cobra) (L : IsLawful K)
    (order : List String) (same : (k : String) → contains order k ≡ contains user_rpc_config_map k)
    (args : List String) (r : RootCmd Struct) where
  -- What the program of the user service does, from its arguments on.
  abbrev pub effects : Log
  effects = (UserRpcCmd.exec P D w M K order args (record { cmd = r; log = [] })).1.log

  -- A name that is registered is the one of a configuration that the arguments name.
  pub registered-exec :
      (n ip : String) (p : ℕ) (f : Flags)
      → L.parse args ≡ flags f
      → has_registration n ip p effects ≡ true
      → (directory : String) × (i : Index) × (c : UserRpcCmd.Config) × UserRpcCmd.IsConfigured P
          directory f i c
        × (n ≡ c.share.user)
        × (D.get_elem_by_index c.rpc.ports i ≡ ok p)
  unfolding UserRpcCmd.start_with
  registered-exec n ip p f parsed h =
      elim (exec_opens P D w M K L order same args (record { cmd = r; log = [] })).0 [
        | inl idle ↦ absurd (ground (arith, h, ap (has_registration n ip p) idle))
        | inr (f', directory, i, c, parsed', configured, log) ↦
            let e : f ≡ f' = ground (arith, parsed, parsed') in
            let (p', q, ip', u, name, here, port) =
              (start-registers_iff D _ c.discovery c.rpc.prometheus _ _ c.rpc.ports i _ _ n ip p).0
                (sym (ap (has_registration n ip p) log) ∙ h) in
            (directory, i, c, rw e configured, name, rw port u.has_port)
      ]

  module _ (w' : Api.World) (order' : List String)
      (same' : (k : String) → contains order' k ≡ contains api_config_map k) (args' : List String)
      (s' : Process) where
    -- The API process makes its discovery, and is stopped in time.
    pub record StopsInTime (c : Api.Config) (i : Index) : Type 0 where
      pub port : ℕ
      pub prometheus_port : ℕ
      pub wait : ℕ
      pub has_port : D.get_elem_by_index c.api.ports i ≡ ok port
      pub has_prometheus_port : D.get_elem_by_index c.api.prometheus.ports i ≡ ok prometheus_port
      pub discovers : new_discovery_register w'.etcd w'.kubernetes c.discovery ≡ ok tt
      pub stops : w'.event ≡ sigterm wait
      pub shuts_down : w'.shutdown (15 - wait) ≡ none

    module _ (f f' : Flags) (parsed : L.parse args ≡ flags f) (parsed' : L.parse args' ≡ flags f')
        (beside : f.conf ≡ f'.conf) (n ip : String) (p : ℕ)
        (h : has_registration n ip p effects ≡ true) where
      -- The API looks for the name under which the service is registered.
      pub registered-looked_for :
          (directory : String) (i : Index) (c : Api.Config)
          → ApiCmd.IsConfigured P directory f' i c
          → n ≡ c.share.user
      registered-looked_for directory i c configured =
          let (directory', i', c', configured', name, _) = registered-exec n ip p f parsed h in
          let e : directory' ≡ directory =
            ground (arith, configured'.has_directory, configured.has_directory, beside) in
          let e' : c'.share ≡ c.share =
            ground (arith, e, configured'.has_share, configured.has_share) in
          name ∙ ap (λ s. s.user) e'

      -- With cobra as documented and the maps of files ranged over in any order: if the user
      -- service has registered a name, the arguments of the API program name the same directory,
      -- and the discovery connects to every name that the service registers, then the API
      -- program ends by itself exactly if its arguments name an index, its files are loaded,
      -- both loggers start, it has its ports, makes its discovery, and a signal comes at which
      -- it shuts down in time. That it finds the service is no condition.
      pub main-registered_iff :
          ((m ip' : String) (q : ℕ)
            → has_registration m ip' q effects ≡ true
            → w'.get_conn m ≡ ok tt)
          → (ApiCmd.main P D w' K order' args' s' ≡ finished) ↔ (
              (directory : String) × (i : Index) × (c : Api.Config) × ApiCmd.IsConfigured P
                directory f' i c
              × StopsInTime c i)
      main-registered_iff found =
          let ends = main-finished_iff_api P D w' K L order' same' args' s' in
          (
            λ fine. elim (ends.0 fine) [
              | inl helped ↦ absurd (ground (arith, parsed', helped))
              | inr (f'', directory, i, c, again, configured, answer) ↦
                  let e : f'' ≡ f' = ground (arith, parsed', again) in
                  let (q, q', u, t, event, down) = (start_in_time_iff D w' c i s'.log).0 answer in
                  (
                    directory,
                    i,
                    c,
                    rw e at configured,
                    record {
                      port = q;
                      prometheus_port = q';
                      wait = t;
                      has_port = u.has_port;
                      has_prometheus_port = u.has_prometheus_port;
                      discovers = u.discovers;
                      stops = event;
                      shuts_down = down;
                    },
                  )
            ],
            λ (directory, i, c, configured, stopped).
                let name = registered-looked_for directory i c configured in
                ends.1 (
                  inr (
                    f',
                    directory,
                    i,
                    c,
                    parsed',
                    configured,
                    (start_in_time_iff D w' c i s'.log).1 (
                      stopped.port,
                      stopped.prometheus_port,
                      record {
                        has_port = stopped.has_port;
                        has_prometheus_port = stopped.has_prometheus_port;
                        discovers = stopped.discovers;
                        connects = ap w'.get_conn (sym name) ∙ found n ip p h;
                      },
                      stopped.wait,
                      stopped.stops,
                      stopped.shuts_down,
                    ),
                  )),
          )
