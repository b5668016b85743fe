-- ===== src/Command/Found.antt =====
-- What a prepared command finds in the structs of its map, for any map and order of ranging over it.
use openim_project_template.Base.{
  String, string_eq, ◌≡◌, refl, true, ◌||◌, Option, List, [], ◌∷◌, ◌++◌, Res, ok, All, contains,
  contains-append, All-contains, All-of_contains, Bool-cases, inl, inr, some, ap, sym, ◌∙◌, arith,
}
use openim_project_template.Base.Dict.{Dict, lookup}
use openim_project_template.Tools.{Index}
use openim_project_template.Config.Env.{log_config_file_name}
use openim_project_template.Command.{
  RootCmd, Flags, CmdOpts, with_config_map, apply_options, apply_all,
}
use openim_project_template.Command.Structs.{
  Kind, Struct, Platform, load_into, map_res, ok-of_map_res,
}
use openim_project_template.Command.Files.{Loads}
use openim_project_template.Command.Prepared
use openim_project_template.Command.Process.{file_logger, console_logger}

module _ (P : Platform) (structs : Dict String Kind) (order names : List String)
    (same : (k : String) → contains order k ≡ contains names k) (f : Flags)
    (r : RootCmd Struct) where
  abbrev pub opts : List (CmdOpts → CmdOpts)
  opts = with_config_map order ∷ []

  abbrev pub AllLoad : String → Type 0
  AllLoad directory =
      All (Loads (load_into P structs) directory)
        ((apply_options opts).config_map ++ log_config_file_name ∷ [])

  abbrev pub after : RootCmd Struct
  after =
      Prepared.configured (load_into P structs) (file_logger P structs) (console_logger P structs) f
        opts r

  named :
      (k : String)
      → contains ((apply_options opts).config_map ++ log_config_file_name ∷ []) k
        ≡ contains names k || contains (log_config_file_name ∷ []) k
  unfolding apply_options apply_all with_config_map
  named k = contains-append order (log_config_file_name ∷ []) k ∙ rw (same k) refl

  -- All files are loaded if those that are named and the log configuration are.
  pub AllLoad-of_named :
      (directory : String)
      → All (Loads (load_into P structs) directory) names
      → Loads (load_into P structs) directory log_config_file_name
      → AllLoad directory
  AllLoad-of_named directory h l = All-of_contains _ _ λ k m. elim (Bool-cases (contains names k)) [
    | inl yes_ ↦ All-contains _ k names h yes_
    | inr no_ ↦ elim (string_eq.dec k log_config_file_name) [
      | yes e ↦ rw e l
      | no n ↦ absurd (ground (arith, m, named k))
    ]
  ]

  module _ (directory : String) (i : Index) (conf : f.conf ≡ ok directory) (index : f.index ≡ ok i)
      (loads : AllLoad directory) where
    -- A struct that a file is loaded into holds what the file was read as.
    pub found :
        {A : Type 0} (make : A → Struct) (out : Option Struct → A) (k : String) (res : Res A)
        → load_into P structs directory k ≡ map_res make res
        → ((a : A) → out (some (make a)) ≡ a)
        → contains names k || contains (log_config_file_name ∷ []) k ≡ true
        → (a : A) × (res ≡ ok a) × (out (lookup k after.loaded) ≡ a)
    found make out k res as_ made h =
        let (c, read, there) =
          Prepared.lookup-configured (load_into P structs) (file_logger P structs)
            (console_logger P structs) f opts r directory i conf index loads k (named k ∙ h) in
        let (a, has, e) = ok-of_map_res make res c (sym as_ ∙ read) in
        (a, has, ap out (there ∙ ap some e) ∙ made a)

    pub index-after : after.index ≡ i
    index-after =
        Prepared.index-configured (load_into P structs) (file_logger P structs)
          (console_logger P structs) f opts r directory i conf index loads
