-- ===== src/Command/Options.antt =====
-- Which options take effect.
use openim_project_template.Base.{String, ◌≡◌, refl, List, [], ◌∷◌, ◌++◌}
use openim_project_template.Command.{
  CmdOpts, with_log_name, with_config_map, with_cron_task_log_name, apply_all, apply_options,
}

apply_all-append :
    (xs ys : List (CmdOpts → CmdOpts)) (o : CmdOpts)
    → apply_all (xs ++ ys) o ≡ apply_all ys (apply_all xs o)
unfolding apply_all
apply_all-append [] ys o = refl
apply_all-append (x ∷ xs) ys o = apply_all-append xs ys (x o)

-- Options take effect in order: the last log name and the last map of files are in force, whatever
-- options stand before them, and an option of the one kind leaves the other as it was.
apply_options_last :
    (opts : List (CmdOpts → CmdOpts)) (name : String) (files : List String)
    → (apply_options (opts ++ with_log_name name ∷ [])
        ≡ record (apply_options opts) { logger_prefix_name = name })
      × (apply_options (opts ++ with_config_map files ∷ [])
          ≡ record (apply_options opts) { config_map = files })
      × (apply_options (opts ++ with_cron_task_log_name ∷ with_config_map files ∷ [])
          ≡ record { logger_prefix_name = "openim-crontask"; config_map = files })
unfolding apply_options with_log_name with_config_map with_cron_task_log_name
apply_options_last opts name files =
    (apply_all-append opts _ _, apply_all-append opts _ _, apply_all-append opts _ _)
