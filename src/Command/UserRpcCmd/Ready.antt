-- ===== src/Command/UserRpcCmd/Ready.antt =====
-- What the process of the user service (pkg/common/cmd/user.go) finds in its files once it is prepared.
use openim_project_template.Base.{
  String, string_eq, ◌≡◌, refl, true, ◌||◌, List, [], ◌∷◌, Res, ok, arith, contains, ap, sym, ◌∙◌,
  Option, some,
}
use openim_project_template.Base.Dict.{lookup}
use openim_project_template.Tools.{DataUtil, Index}
use openim_project_template.Config.Env.{
  openim_rpc_user_cfg_file_name, mongodb_config_file_name, discovery_config_filename,
  share_file_name, log_config_file_name,
}
use openim_project_template.Startup.Rpc
use openim_project_template.Command.{
  RootCmd, Flags, with_config_map, apply_options, apply_all, user_rpc_config_map,
}
use openim_project_template.Command.Structs.{
  Struct, Platform, a_user_rpc, a_mongo, a_discovery, a_share, a_log, load_into, user_rpc_in,
  mongo_in, share_in, discovery_in, log_in, map_res,
}
use openim_project_template.Command.Prepared
use openim_project_template.Command.Found.{
  AllLoad, AllLoad-of_named, found, index-after, after, opts,
}
use openim_project_template.Command.Process.{file_logger, console_logger}
use openim_project_template.Command.UserRpcCmd.{
  user_rpc_structs, run_e, start_with, Config, config_in, IsConfigured, read_user_rpc, read_mongo,
  read_discovery, read_share, read_log,
}
use openim_project_template.User.Server.Start.{Driver}

module _ (P : Platform) (order : List String)
    (same : (k : String) → contains order k ≡ contains user_rpc_config_map k) (f : Flags)
    (r : RootCmd Struct) where
  abbrev pub Ready : String → Index → Type 0
  Ready =
      Prepared.IsPrepared (load_into P user_rpc_structs) (file_logger P user_rpc_structs)
        (console_logger P user_rpc_structs) f
        (opts P user_rpc_structs order user_rpc_config_map same f r) r

  abbrev t : RootCmd Struct
  t = after P user_rpc_structs order user_rpc_config_map same f r

  module _ (directory : String) (i : Index) (p : Ready directory i) where
    read :
        {A : Type 0} (make : A → Struct) (out : Option Struct → A) (k : String) (res : Res A)
        → load_into P user_rpc_structs directory k ≡ map_res make res
        → ((a : A) → out (some (make a)) ≡ a)
        → contains user_rpc_config_map k || contains (log_config_file_name ∷ []) k ≡ true
        → (a : A) × (res ≡ ok a) × (out (lookup k t.loaded) ≡ a)
    read =
        found P user_rpc_structs order user_rpc_config_map same f r directory i p.has_directory
          p.has_index p.loads

    pub IsConfigured-of_ready :
        (c : Config) × IsConfigured P directory f i c × (config_in t.loaded ≡ c) × (t.index ≡ i)
    unfolding apply_options apply_all with_config_map
    IsConfigured-of_ready =
        let (a, has_a, is_a) =
          read a_user_rpc user_rpc_in openim_rpc_user_cfg_file_name _ (read_user_rpc P directory)
            (λ c. refl) (unfold string_eq in refl) in
        let (m, has_m, is_m) =
          read a_mongo mongo_in mongodb_config_file_name _ (read_mongo P directory) (λ c. refl)
            (unfold string_eq in refl) in
        let (s, has_s, is_s) =
          read a_share share_in share_file_name _ (read_share P directory) (λ c. refl)
            (unfold string_eq in refl) in
        let (d, has_d, is_d) =
          read a_discovery discovery_in discovery_config_filename _ (read_discovery P directory)
            (λ c. refl) (unfold string_eq in refl) in
        let (l, has_l, is_l) =
          read a_log log_in log_config_file_name _ (read_log P directory) (λ c. refl)
            (unfold string_eq in refl) in
        (
          record { rpc = a; mongo = m; share = s; discovery = d },
          record {
            has_directory = p.has_directory;
            has_index = p.has_index;
            has_rpc = has_a;
            has_mongo = has_m;
            has_share = has_s;
            has_discovery = has_d;
            has_log = (
              l,
              has_l,
              ap (P.init_logger "openim-service-log") (sym is_l) ∙ p.logs_to_file,
              ap P.init_console (sym is_l) ∙ p.logs_to_console,
            );
          },
          rw (is_a, is_m, is_s, is_d) refl,
          index-after P user_rpc_structs order user_rpc_config_map same f r directory i
              p.has_directory p.has_index p.loads,
        )

  module _ (directory : String) (i : Index) (c : Config) (h : IsConfigured P directory f i c) where
    all_load : AllLoad P user_rpc_structs order user_rpc_config_map same f r directory
    all_load =
        AllLoad-of_named P user_rpc_structs order user_rpc_config_map same f r directory
          (
            (a_user_rpc c.rpc, read_user_rpc P directory ∙ ap (map_res a_user_rpc) h.has_rpc),
            (
              (a_mongo c.mongo, read_mongo P directory ∙ ap (map_res a_mongo) h.has_mongo),
              (
                (a_share c.share, read_share P directory ∙ ap (map_res a_share) h.has_share),
                (
                  (
                    a_discovery c.discovery,
                    read_discovery P directory ∙ ap (map_res a_discovery) h.has_discovery,
                  ),
                  tt,
                ),
              ),
            ),
          )
          (a_log h.has_log.0, read_log P directory ∙ ap (map_res a_log) h.has_log.1)

    pub Ready-of_configured : Ready directory i
    unfolding apply_options apply_all with_config_map
    Ready-of_configured =
        let (l, has_l, is_l) =
          found P user_rpc_structs order user_rpc_config_map same f r directory i h.has_directory
            h.has_index all_load a_log log_in log_config_file_name _ (read_log P directory)
            (λ c. refl) (unfold string_eq in refl) in
        let (l', has_l', files, consoles) = h.has_log in
        let e : l ≡ l' = cc in
        record {
          has_directory = h.has_directory;
          has_index = h.has_index;
          loads = all_load;
          logs_to_file = ap (P.init_logger "openim-service-log") (is_l ∙ e) ∙ files;
          logs_to_console = ap P.init_console (is_l ∙ e) ∙ consoles;
        }

    pub run_e-configured :
        (D : DataUtil) (w : Rpc.World) (M : Driver) → run_e P D w M t ≡ start_with P D w M c i
    run_e-configured D w M =
        let (c', h', is_c, is_i) = IsConfigured-of_ready directory i Ready-of_configured in
        let e : c' ≡ c = ground (
          arith, h.has_rpc, h'.has_rpc, h.has_mongo, h'.has_mongo, h.has_share, h'.has_share,
          h.has_discovery, h'.has_discovery,
        ) in
        rw (is_c, is_i, e) refl
