-- ===== src/User/Server/Refinement.antt =====
-- The service is a directory: each of its requests, and each run of them, is one that
-- `User.Directory` allows.
use openim_project_template.Base.{
  String, ◌≡◌, ◌≢◌, subst, Res, refl, ap, inl, inr, true, Option, none, some, List, [], ◌∷◌, map,
  All, Any-of_map, contains, string_eq, arith, Option-cases, sym,
}
use openim_project_template.Errors.{Error}
use openim_project_template.Tools
use openim_project_template.Tools.{DataUtil}
use openim_project_template.User.{User, UserInfo, to_model}
use openim_project_template.User.Directory.{
  Directory, Request, register, lookup, Grows, Step, registers, refuses, fails, finds, misses,
  declines, breaks, Run, over, goes,
}
use openim_project_template.User.Storage
use openim_project_template.User.Storage.{Collection}
use openim_project_template.User.Server.{Server, user_register, get_designate_users}
use openim_project_template.User.Server.Valid.{info_ids, ids-map-to_model}
use openim_project_template.User.Server.Register.{
  inserted, user_register_reaches, IsRegistrable-or_refused,
}
use openim_project_template.User.Server.Lookup.{
  to_info, get_found, get_failed, many_fails, get_designate_users_empty,
}
use openim_project_template.User.Server.Session.{
  serve_one, serve, answer_one, answers, of_register, of_lookup,
}

abbrev pub shown : Option User × Option Error → Option UserInfo
shown (some u, none) = some (to_info u)
shown (some u, some e) = none
shown (none, e) = none

-- The directory that a collection stands for: what a find without an error yields.
abbrev pub view : (C : Collection) → C.State → Directory
view C t k = shown (C.find_one k t)

pub shown_failed : (found : Option User × Option Error) → found.1 ≢ none → shown found ≡ none
shown_failed (some u, none) h = absurd (h refl)
shown_failed (some u, some e) h = refl
shown_failed (none, e) h = refl

All-named :
    (P : String → Type 0) (us : List UserInfo)
    → ((k : String) → contains (info_ids us) k ≡ true → P k)
    → All (λ u. P u.user_id) us
All-named P [] h = tt
All-named P (u ∷ us) h = (h u.user_id (ground arith), All-named P us (λ k m. h k (ground arith)))

pub All-view :
    (C : Collection) (us : List UserInfo) (t : C.State)
    → All (λ u. C.find_one u.user_id t ≡ (some u, none)) (map to_model us)
    → All (λ u. view C t u.user_id ≡ some u) us
All-view C [] t h = tt
All-view C (u ∷ us) t (here, h) = (ap shown here, All-view C us t h)

module _ (C : Collection) (L : Storage.IsLawful C) where
  Grows-inserted :
      (us : List UserInfo) (s : Server C) → Grows (view C s.db) us (view C (inserted C us s).1)
  Grows-inserted us s k = elim (L.grows (map to_model us) s.db k) [
    | inl same ↦ inl (ap shown same)
    | inr (absent, new) ↦ inr (
      shown_failed _ absent,
      Any-of_map _ _ to_model us (λ u (id, there). (id, ap shown there)) new,
    )
  ]

  All-fresh :
      (us : List UserInfo) (s : Server C)
      → (inserted C us s).0 ≡ none
      → All (λ u. view C s.db u.user_id ≡ none) us
  All-fresh us s fine =
      All-named (λ k. view C s.db k ≡ none) us
        λ k named. shown_failed _ λ stored.
          L.refuses_stored (map to_model us) s.db k (rw ids-map-to_model named) stored fine

module _ (C : Collection) (L : Storage.IsLawful C) (D : DataUtil) (T : Tools.IsLawful D) where
  Step-of_register :
      (us : List UserInfo) (s : Server C) {r : Res (Unit {0}) × Server C}
      → user_register C D us s ≡ r
      → Step (view C s.db) (register us) (of_register r.0) (view C r.1.db)
      → Step
          (view C s.db)
          (register us)
          (answer_one C D (register us) s)
          (view C (serve_one C D (register us) s).db)
  unfolding answer_one serve_one
  Step-of_register us s h =
      subst (λ r. Step (view C s.db) (register us) (of_register r.0) (view C r.1.db)) (sym h)

  Step-of_lookup :
      (ks : List String) (s : Server C) {r : Res (List UserInfo) × Server C}
      → get_designate_users C ks s ≡ r
      → Step (view C s.db) (lookup ks) (of_lookup r.0) (view C r.1.db)
      → Step
          (view C s.db)
          (lookup ks)
          (answer_one C D (lookup ks) s)
          (view C (serve_one C D (lookup ks) s).db)
  unfolding answer_one serve_one
  Step-of_lookup ks s h =
      subst (λ r. Step (view C s.db) (lookup ks) (of_lookup r.0) (view C r.1.db)) (sym h)

  user_register_refines :
      (us : List UserInfo) (s : Server C)
      → Step
          (view C s.db)
          (register us)
          (answer_one C D (register us) s)
          (view C (serve_one C D (register us) s).db)
  user_register_refines us s = elim (IsRegistrable-or_refused C D T us s) [
    | inl v ↦
        Step-of_register us s (user_register_reaches C D T us s v)
          (elim (Option-cases (inserted C us s).0) [
            | inl fine ↦ rw fine (
                registers v (All-fresh C L us s fine)
                  (All-view C us _ (L.found_after_insert (map to_model us) s.db fine))
                  (Grows-inserted C L us s))
            | inr (e, failed) ↦ rw failed (fails v (Grows-inserted C L us s))
          ])
    | inr (bad, m, refused) ↦ Step-of_register us s refused (refuses bad)
  ]

  get_designate_users_refines :
      (ks : List String) (s : Server C)
      → Step
          (view C s.db)
          (lookup ks)
          (answer_one C D (lookup ks) s)
          (view C (serve_one C D (lookup ks) s).db)
  get_designate_users_refines [] s = Step-of_lookup [] s (get_designate_users_empty C s) breaks
  get_designate_users_refines (k ∷ []) s = elim (Option-cases (C.find_one k s.db).1) [
    | inl fine ↦
        let (u, there, same) = L.found k s.db fine in
        Step-of_lookup (k ∷ []) s (get_found C s k u there) (finds same (ap shown there))
    | inr (e, failed) ↦
        Step-of_lookup (k ∷ []) s (get_failed C s k e failed)
          (misses (shown_failed _ (λ p. absurd (ground (arith, p, failed)))))
  ]
  get_designate_users_refines (j ∷ k ∷ ks) s =
      let (e, failed) = many_fails C s j k ks in Step-of_lookup (j ∷ k ∷ ks) s failed declines

  answer_one_refines :
      (r : Request) (s : Server C)
      → Step (view C s.db) r (answer_one C D r s) (view C (serve_one C D r s).db)
  answer_one_refines (register us) s = user_register_refines us s
  answer_one_refines (lookup ks) s = get_designate_users_refines ks s

  -- Over a collection and library functions that keep their laws, every run of requests refines
  -- the directory: with the users that finds yield as the directory, each request is answered
  -- and changes it by a step of the specification in User.Directory. A registration is done only
  -- for users that are new and all there afterwards, a refused one changes nothing, a failed one
  -- keeps every user that was there, and a lookup answers what the directory has.
  pub serve_refines :
      (rs : List Request) (s : Server C)
      → Run (view C s.db) rs (answers C D rs s) (view C (serve C D rs s).db)
  unfolding serve answers
  serve_refines [] s = over
  serve_refines (r ∷ rs) s = goes (answer_one_refines r s) (serve_refines rs (serve_one C D r s))
