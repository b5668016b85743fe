-- ===== src/User/Server/Later.antt =====
-- What a registration (`UserRegister`) makes sure of for every request that comes after it.
use openim_project_template.Base.{
  String, ◌≡◌, ◌≢◌, ◌⊎◌, Any, inl, inr, true, Option-cases, none, some, List, [], ◌∷◌, map, All,
  contains, string_eq, arith, ok, ap,
}
use openim_project_template.Tools
use openim_project_template.Tools.{DataUtil}
use openim_project_template.User.{UserInfo, to_model}
use openim_project_template.User.Directory.{Directory, Request, Run-keeps, Run-origin, Registers}
use openim_project_template.User.Storage
use openim_project_template.User.Storage.{Collection}
use openim_project_template.User.Server.{Server, user_register, get_designate_users}
use openim_project_template.User.Server.Valid.{info_ids, ids-map-to_model}
use openim_project_template.User.Server.Register.{user_register_reaches, user_register-ok_iff}
use openim_project_template.User.Server.Lookup.{to_info, get_found, get_designate_users-ok_iff}
use openim_project_template.User.Server.Session.{serve}
use openim_project_template.User.Server.Refinement.{
  view, shown, All-view, shown_failed, serve_refines,
}

All-kept :
    (d d' : Directory) (us : List UserInfo)
    → ((k : String) (u : UserInfo) → d k ≡ some u → d' k ≡ some u)
    → All (λ u. d u.user_id ≡ some u) us
    → All (λ u. d' u.user_id ≡ some u) us
All-kept d d' [] keep h = tt
All-kept d d' (u ∷ us) keep (here, h) = (keep u.user_id u here, All-kept d d' us keep h)

-- An id that is named by users that are all there has one of them.
has_user :
    (d : Directory) (us : List UserInfo) (k : String)
    → All (λ u. d u.user_id ≡ some u) us
    → contains (info_ids us) k ≡ true
    → (u : UserInfo) × (d k ≡ some u)
has_user d [] k h m = absurd (ground arith)
has_user d (u ∷ us) k (here, h) m = elim (string_eq.dec k u.user_id) [
  | yes e ↦ (u, rw e here)
  | no n ↦ has_user d us k h (ground arith)
]

module _ (C : Collection) (L : Storage.IsLawful C) where
  find-of_view :
      (k : String) (u : UserInfo) (t : C.State) → view C t k ≡ some u → (C.find_one k t).1 ≡ none
  find-of_view k u t h = elim (Option-cases (C.find_one k t).1) [
    | inl fine ↦ fine
    | inr (e, failed) ↦
        absurd (
          ground
            (arith, h, shown_failed (C.find_one k t) (λ p. absurd (ground (arith, p, failed)))))
  ]

  get-of_view :
      (k : String) (u : UserInfo) (s : Server C)
      → view C s.db k ≡ some u
      → get_designate_users C (k ∷ []) s ≡ (ok (u ∷ []), s)
  get-of_view k u s h =
      let (w, there, _) = L.found k s.db (find-of_view k u s.db h) in
      let same : to_info w ≡ u = ground (arith, h, there) in rw (get_found C s k w there, same)

  All-get :
      (us : List UserInfo) (s : Server C)
      → All (λ u. view C s.db u.user_id ≡ some u) us
      → All (λ u. get_designate_users C (u.user_id ∷ []) s ≡ (ok (u ∷ []), s)) us
  All-get [] s h = tt
  All-get (u ∷ us) s (here, h) = (get-of_view u.user_id u s here, All-get us s h)

module _ (C : Collection) (L : Storage.IsLawful C) (D : DataUtil) (T : Tools.IsLawful D) where
  All-registered :
      (us : List UserInfo) (rs : List Request) (s : Server C)
      → (user_register C D us s).0 ≡ ok tt
      → All (λ u. view C (serve C D rs (user_register C D us s).1).db u.user_id ≡ some u) us
  All-registered us rs s h =
      let (v, fine) = (user_register-ok_iff C D T us s).0 h in
      let same = ap (λ r. r.1.db) (user_register_reaches C D T us s v) in
      All-kept _ _ us (λ k u. Run-keeps (serve_refines C L D T rs (user_register C D us s).1))
        (rw (user_register_reaches C D T us s v, fine)
          (All-view C us _ (L.found_after_insert (map to_model us) s.db fine)))

  -- Over a collection and library functions that keep their laws, after a registration that
  -- succeeds and any run of requests behind it, a lookup of the id of each of its users answers
  -- that user.
  pub get-serve-user_register :
      (us : List UserInfo) (rs : List Request) (s : Server C)
      → (user_register C D us s).0 ≡ ok tt
      → let t : Server C = serve C D rs (user_register C D us s).1 in
        All (λ u. get_designate_users C (u.user_id ∷ []) t ≡ (ok (u ∷ []), t)) us
  get-serve-user_register us rs s h = All-get C L us _ (All-registered us rs s h)

  -- Over a collection and library functions that keep their laws, after a registration that
  -- succeeds and any run of requests behind it, a registration that names one of its ids does
  -- not succeed.
  pub user_register_taken :
      (us again : List UserInfo) (rs : List Request) (s : Server C) (k : String)
      → (user_register C D us s).0 ≡ ok tt
      → contains (info_ids us) k ≡ true
      → contains (info_ids again) k ≡ true
      → (user_register C D again (serve C D rs (user_register C D us s).1)).0 ≢ ok tt
  user_register_taken us again rs s k h m m' h' =
      let t : Server C = serve C D rs (user_register C D us s).1 in
      let (u, there) = has_user (view C t.db) us k (All-registered us rs s h) m in
      L.refuses_stored (map to_model again) t.db k (rw ids-map-to_model m')
        (find-of_view C L k u t.db there) ((user_register-ok_iff C D T again t).0 h').1

  -- Over a collection and library functions that keep their laws, a lookup behind any run of
  -- requests answers a user only if it is asked for the id of that one user, and the service
  -- knew the user before the run or some registration of the run names it.
  pub get-serve_origin :
      (ks : List String) (infos : List UserInfo) (rs : List Request) (s : Server C)
      → (get_designate_users C ks (serve C D rs s)).0 ≡ ok infos
      → (u : UserInfo) × (infos ≡ u ∷ [])
        × (ks ≡ u.user_id ∷ [])
        × ((view C s.db u.user_id ≡ some u) ⊎ Any (Registers u) rs)
  get-serve_origin ks infos rs s h =
      let (w, asked, there, same) =
        (get_designate_users-ok_iff C L ks infos (serve C D rs s)).0 h in
      (to_info w, same, asked, Run-origin rs (serve_refines C L D T rs s) (ap shown there))
