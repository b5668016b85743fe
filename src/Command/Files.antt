-- ===== src/Command/Files.antt =====
-- Which configuration files a process loads before it runs.
use openim_project_template.Base.{
  String, ◌≡◌, refl, ◌∙◌, sym, ◌↔◌, ◌⊎◌, inl, inr, some, List, [], ◌∷◌, ◌++◌, Res, ok, arith, All,
  contains, string_eq, true, false, Res-cases, ◌>>=◌,
}
use openim_project_template.Base.Dict.{lookup, insert, lookup-insert}
use openim_project_template.Tools.{Index}
use openim_project_template.Config.Env.{log_config_file_name}
use openim_project_template.Command.{RootCmd, Flags, CmdOpts, load_files, initialize_configuration}

module _ {A : Type 0} (load : String → String → Res A) (directory : String) where
  abbrev pub Loads : String → Type 0
  Loads file = (a : A) × (load directory file ≡ ok a)

  abbrev with_file : String → A → RootCmd A → RootCmd A
  with_file file a r = record r { loaded = insert file a r.loaded }

  module _ (file : String) (files : List String) (r : RootCmd A) where
    load_files_step :
        (a : A)
        → load directory file ≡ ok a
        → load_files load directory (file ∷ files) r
          ≡ load_files load directory files (with_file file a r)
    unfolding load_files
    load_files_step a h = ground arith

    load_files_stop : (load_files load directory (file ∷ files) r).0 ≡ ok tt → Loads file
    unfolding load_files
    load_files_stop h = elim (Res-cases (load directory file)) [
      | inl loaded ↦ loaded
      | inr (inl (e, failed)) ↦ absurd (ground (arith, failed))
      | inr (inr panicked) ↦ absurd (ground (arith, panicked))
    ]

  load_files-ok_iff :
      (files : List String) (r : RootCmd A)
      → ((load_files load directory files r).0 ≡ ok tt) ↔ All Loads files
  load_files-ok_iff [] r = (λ _. tt, λ _. unfold load_files in refl)
  load_files-ok_iff (file ∷ files) r = (
    λ h.
        let (a, here) = load_files_stop file files r h in
        (
          (a, here),
          (load_files-ok_iff files (with_file file a r)).0
              (rw (load_files_step file files r a here) at h),
        ),
    λ ((a, here), rest).
        rw (load_files_step file files r a here)
          ((load_files-ok_iff files (with_file file a r)).1 rest),
  )

  -- A file of the list is loaded from its own file, any other is as it was.
  abbrev pub IsLoaded : List String → RootCmd A → RootCmd A → String → Type 0
  IsLoaded files r t k =
      ((contains files k ≡ true)
        × (a : A) × (load directory k ≡ ok a)
        × (lookup k t.loaded ≡ some a))
      ⊎ ((contains files k ≡ false) × (lookup k t.loaded ≡ lookup k r.loaded))

  lookup-load_files :
      (files : List String) (r : RootCmd A) (k : String)
      → (load_files load directory files r).0 ≡ ok tt
      → IsLoaded files r (load_files load directory files r).1 k
  lookup-load_files [] r k h = unfold load_files in inr (refl, refl)
  lookup-load_files (file ∷ files) r k h =
      let (a, here) = load_files_stop file files r h in
      let step = load_files_step file files r a here in
      rw step (elim (lookup-load_files files (with_file file a r) k (rw step at h)) [
        | inl (later, b, read, found) ↦ inl (ground (arith, later), b, read, found)
        | inr (not_later, kept) ↦ elim (string_eq.dec k file) [
          | yes e ↦ inl (
            ground (arith, e),
            a,
            rw e here,
            kept ∙ ground (arith, e, lookup-insert k file a r.loaded),
          )
          | no n ↦ inr (
            ground (arith, n, not_later),
            kept ∙ ground (arith, n, lookup-insert k file a r.loaded),
          )
        ]
      ])

  load_files-append :
      (files : List String) (file : String) (r : RootCmd A)
      → load_files load directory (files ++ file ∷ []) r
        ≡ (load_files load directory files >>= λ _. load_files load directory (file ∷ [])) r
  unfolding load_files
  load_files-append [] file r = refl
  load_files-append (f ∷ files) file r = elim (Res-cases (load directory f)) [
    | inl (a, here) ↦ rw here (load_files-append files file (with_file f a r))
    | inr (inl (e, failed)) ↦ rw failed
    | inr (inr panicked) ↦ rw panicked
  ]

  index-load_files :
      (files : List String) (r : RootCmd A) → (load_files load directory files r).1.index ≡ r.index
  unfolding load_files
  index-load_files [] r = refl
  index-load_files (f ∷ files) r = elim (Res-cases (load directory f)) [
    | inl (a, here) ↦ rw here (index-load_files files (with_file f a r))
    | inr (inl (e, failed)) ↦ rw failed
    | inr (inr panicked) ↦ rw panicked
  ]

  module _ (flags : Flags) (i : Index) (conf : flags.conf ≡ ok directory)
      (index : flags.index ≡ ok i) (opts : CmdOpts) (r : RootCmd A) where
    abbrev files : List String
    files = opts.config_map ++ log_config_file_name ∷ []

    initialize-as_load_files :
        initialize_configuration load flags opts r
        ≡ load_files load directory files (record r { index = i })
    unfolding initialize_configuration
    initialize-as_load_files =
        rw (conf, index)
          (sym (load_files-append opts.config_map log_config_file_name (record r { index = i })))

    -- With a directory and an index among the flags, initializeConfiguration succeeds exactly if
    -- each file of the command's map and the log configuration can be loaded.
    pub initialize_configuration-ok_iff :
        ((initialize_configuration load flags opts r).0 ≡ ok tt)
        ↔ All Loads (opts.config_map ++ log_config_file_name ∷ [])
    initialize_configuration-ok_iff =
        rw initialize-as_load_files (load_files-ok_iff files (record r { index = i }))

    -- Where initializeConfiguration succeeds, the index is the flag's, each file of the map and
    -- the log configuration have been loaded from their own files, and nothing else has changed.
    pub initialize_configuration_lem :
        (initialize_configuration load flags opts r).0 ≡ ok tt
        → let t : RootCmd A = (initialize_configuration load flags opts r).1 in
          (t.index ≡ i)
          × ((k : String) → IsLoaded (opts.config_map ++ log_config_file_name ∷ []) r t k)
    initialize_configuration_lem = rw initialize-as_load_files λ h. (
      index-load_files files (record r { index = i }),
      λ k. lookup-load_files files (record r { index = i }) k h,
    )
