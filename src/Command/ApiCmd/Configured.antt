-- ===== src/Command/ApiCmd/Configured.antt =====
-- What the API process (pkg/common/cmd/api.go) finds in its files, and what `main` makes of it.
use openim_project_template.Base.{
  String, string_eq, ◌≡◌, ◌↔◌, ◌⊎◌, refl, true, ◌||◌, List, [], ◌∷◌, Res, ok, arith, inl, inr,
  contains, ap, sym, ◌∙◌, Option, some,
}
use openim_project_template.Base.Dict.{lookup}
use openim_project_template.Tools.{DataUtil, Index}
use openim_project_template.Config.Env.{
  openim_api_cfg_file_name, discovery_config_filename, share_file_name, log_config_file_name,
}
use openim_project_template.Startup.Api
use openim_project_template.Command.{
  RootCmd, Flags, with_config_map, apply_options, apply_all, api_config_map,
}
use openim_project_template.Command.Structs.{
  Struct, Platform, an_api, a_discovery, a_share, a_log, load_into, api_in, share_in, discovery_in,
  log_in, map_res,
}
use openim_project_template.Command.Prepared
use openim_project_template.Command.Found.{
  AllLoad, AllLoad-of_named, found, index-after, after, opts,
}
use openim_project_template.Command.Process.{
  Process, Cobra, IsLawful, flags, help, finished, exit_of-finished_iff, file_logger,
  console_logger,
}
use openim_project_template.Command.Execution.{execute-ok_iff}
use openim_project_template.Command.ApiCmd.{
  api_structs, run_e, config_in, IsConfigured, read_api, read_discovery, read_share, read_log,
  new_api_cmd, main,
}

module _ (P : Platform) (order : List String)
    (same : (k : String) → contains order k ≡ contains api_config_map k) (f : Flags)
    (r : RootCmd Struct) where
  abbrev Ready : String → Index → Type 0
  Ready =
      Prepared.IsPrepared (load_into P api_structs) (file_logger P api_structs)
        (console_logger P api_structs) f (opts P api_structs order api_config_map same f r) r

  abbrev t : RootCmd Struct
  t = after P api_structs order api_config_map same f r

  module _ (directory : String) (i : Index) (p : Ready directory i) where
    read :
        {A : Type 0} (make : A → Struct) (out : Option Struct → A) (k : String) (res : Res A)
        → load_into P api_structs directory k ≡ map_res make res
        → ((a : A) → out (some (make a)) ≡ a)
        → contains api_config_map k || contains (log_config_file_name ∷ []) k ≡ true
        → (a : A) × (res ≡ ok a) × (out (lookup k t.loaded) ≡ a)
    read =
        found P api_structs order api_config_map same f r directory i p.has_directory p.has_index
          p.loads

    IsConfigured-of_ready :
        (c : Api.Config) × IsConfigured P directory f i c × (config_in t.loaded ≡ c) × (t.index ≡ i)
    unfolding apply_options apply_all with_config_map
    IsConfigured-of_ready =
        let (a, has_a, is_a) =
          read an_api api_in openim_api_cfg_file_name _ (read_api P directory) (λ c. refl)
            (unfold string_eq in refl) in
        let (d, has_d, is_d) =
          read a_discovery discovery_in discovery_config_filename _ (read_discovery P directory)
            (λ c. refl) (unfold string_eq in refl) in
        let (s, has_s, is_s) =
          read a_share share_in share_file_name _ (read_share P directory) (λ c. refl)
            (unfold string_eq in refl) in
        let (l, has_l, is_l) =
          read a_log log_in log_config_file_name _ (read_log P directory) (λ c. refl)
            (unfold string_eq in refl) in
        (
          record { api = a; discovery = d; share = s },
          record {
            has_directory = p.has_directory;
            has_index = p.has_index;
            has_api = has_a;
            has_discovery = has_d;
            has_share = has_s;
            has_log = (
              l,
              has_l,
              ap (P.init_logger "openim-service-log") (sym is_l) ∙ p.logs_to_file,
              ap P.init_console (sym is_l) ∙ p.logs_to_console,
            );
          },
          rw (is_a, is_d, is_s) refl,
          index-after P api_structs order api_config_map same f r directory i p.has_directory
              p.has_index p.loads,
        )

  module _ (directory : String) (i : Index) (c : Api.Config)
      (h : IsConfigured P directory f i c) where
    all_load : AllLoad P api_structs order api_config_map same f r directory
    all_load =
        AllLoad-of_named P api_structs order api_config_map same f r directory
          (
            (an_api c.api, read_api P directory ∙ ap (map_res an_api) h.has_api),
            (
              (
                a_discovery c.discovery,
                read_discovery P directory ∙ ap (map_res a_discovery) h.has_discovery,
              ),
              ((a_share c.share, read_share P directory ∙ ap (map_res a_share) h.has_share), tt),
            ),
          )
          (a_log h.has_log.0, read_log P directory ∙ ap (map_res a_log) h.has_log.1)

    Ready-of_configured : Ready directory i
    unfolding apply_options apply_all with_config_map
    Ready-of_configured =
        let (l, has_l, is_l) =
          found P api_structs order api_config_map same f r directory i h.has_directory h.has_index
            all_load a_log log_in log_config_file_name _ (read_log P directory) (λ c. refl)
            (unfold string_eq in refl) in
        let (l', has_l', files, consoles) = h.has_log in
        let e : l ≡ l' = cc in
        record {
          has_directory = h.has_directory;
          has_index = h.has_index;
          loads = all_load;
          logs_to_file = ap (P.init_logger "openim-service-log") (is_l ∙ e) ∙ files;
          logs_to_console = ap P.init_console (is_l ∙ e) ∙ consoles;
        }

    run_e-configured : (D : DataUtil) (w : Api.World) → run_e P D w t ≡ Api.start D w c i
    run_e-configured D w =
        let (c', h', is_c, is_i) = IsConfigured-of_ready directory i Ready-of_configured in
        let e : c' ≡ c = ground (
          arith, h.has_api, h'.has_api, h.has_discovery, h'.has_discovery, h.has_share,
          h'.has_share,
        ) in
        rw (is_c, is_i, e) refl

module _ (P : Platform) (D : DataUtil) (w : Api.World) (K : Cobra) (L : IsLawful K)
    (order : List String) (same : (k : String) → contains order k ≡ contains api_config_map k)
    (args : List String) (s : Process) where
  -- With cobra as documented and the map of files ranged over in any order, the API program ends
  -- by itself exactly if it is asked for help, or its arguments name a directory and an index,
  -- all four configuration files are loaded from their own paths, both loggers start, and Start
  -- on what the files hold answers nil.
  pub main-finished_iff_api : (main P D w K order args s ≡ finished) ↔ (
      (L.parse args ≡ help)
      ⊎ ((f : Flags) × (directory : String) × (i : Index) × (c : Api.Config) × (L.parse args
            ≡ flags f)
          × IsConfigured P directory f i c
          × ((Api.start D w c i s.log).0 ≡ ok tt)))
  unfolding main new_api_cmd
  main-finished_iff_api = (
    λ h.
        elim ((execute-ok_iff P api_structs K L (with_config_map order ∷ []) (run_e P D w) args s).0
          ((exit_of-finished_iff _).0 h)) [
            | inl parsed ↦ inl parsed
            | inr (f, p, fine) ↦
                let (c, h', is_c, is_i) =
                  IsConfigured-of_ready P order same f s.cmd p.directory p.index p.prepared in
                inr (f, p.directory, p.index, c, p.parsed, h', rw (is_c, is_i) at fine)
          ],
    λ h. (exit_of-finished_iff _).1 (
        (execute-ok_iff P api_structs K L (with_config_map order ∷ []) (run_e P D w) args s).1
          (elim h [
            | inl parsed ↦ inl parsed
            | inr (f, directory, i, c, parsed, h', fine) ↦ inr (
              f,
              record {
                parsed = parsed;
                directory = directory;
                index = i;
                prepared = Ready-of_configured P order same f s.cmd directory i c h';
              },
              ap (λ m. (m s.log).0) (run_e-configured P order same f s.cmd directory i c h' D w)
                  ∙ fine,
            )
          ])),
  )
