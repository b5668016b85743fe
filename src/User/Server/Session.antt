-- ===== src/User/Server/Session.antt =====
-- The service over a run of requests, in the order in which it serves them.
use openim_project_template.Base.{
  All-contains, ℕ, ◌+◌, String, ◌≡◌, inl, inr, List, [], ◌∷◌, arith, none, Res, ok, err, panics,
  contains, string_eq, Bool-cases,
}
use openim_project_template.Tools
use openim_project_template.Tools.{DataUtil}
use openim_project_template.User.{UserInfo}
use openim_project_template.User.Directory.{
  Request, register, lookup, Answer, done, users, fault, crash,
}
use openim_project_template.User.Storage
use openim_project_template.User.Storage.{Collection}
use openim_project_template.User.Server.{Server, user_register, get_designate_users}
use openim_project_template.User.Server.Valid.{IsValidId, info_ids}
use openim_project_template.User.Server.Register.{db-user_register, registered-user_register}
use openim_project_template.User.Server.Lookup.{find-user_register}

abbrev pub of_register : Res (Unit {0}) → Answer
of_register (ok _) = done
of_register (err e) = fault e
of_register panics = crash

abbrev pub of_lookup : Res (List UserInfo) → Answer
of_lookup (ok infos) = users infos
of_lookup (err e) = fault e
of_lookup panics = crash

module _ (C : Collection) (D : DataUtil) where
  -- The state after a request; an answer that is an error or a panic leaves the state it reached.
  unfoldable pub serve_one : Request → Server C → Server C
  serve_one (register us) s = (user_register C D us s).1
  serve_one (lookup ks) s = (get_designate_users C ks s).1

  unfoldable pub serve : List Request → Server C → Server C
  unfolding serve_one
  serve [] s = s
  serve (r ∷ rs) s = serve rs (serve_one r s)

  unfoldable pub answer_one : Request → Server C → Answer
  answer_one (register us) s = of_register (user_register C D us s).0
  answer_one (lookup ks) s = of_lookup (get_designate_users C ks s).0

  -- What the requests of a run are answered.
  unfoldable pub answers : List Request → Server C → List Answer
  unfolding answer_one serve_one
  answers [] s = []
  answers (r ∷ rs) s = answer_one r s ∷ answers rs (serve_one r s)

  abbrev pub is_ok : {A : Type 0} → Res A → ℕ
  is_ok (ok a) = 1
  is_ok (err e) = 0
  is_ok panics = 0

  -- How many registrations of the run are answered without an error.
  unfoldable pub accepted : List Request → Server C → ℕ
  accepted [] s = 0
  accepted (register us ∷ rs) s =
      is_ok (user_register C D us s).0 + accepted rs (user_register C D us s).1
  accepted (lookup ks ∷ rs) s = accepted rs s

-- Every id that the collection knows is one that a registration accepts.
abbrev pub IsClean : {C : Collection} → Server C → Type 0
IsClean {C} s = (k : String) → (C.find_one k s.db).1 ≡ none → IsValidId k

module _ (C : Collection) (L : Storage.IsLawful C) (D : DataUtil) (T : Tools.IsLawful D) where
  user_register-IsClean :
      (us : List UserInfo) (s : Server C) → IsClean s → IsClean (user_register C D us s).1
  user_register-IsClean us s h k known = elim (db-user_register C D T us s) [
    | inl same ↦ h k (rw same at known)
    | inr (v, _) ↦ elim (Bool-cases (contains (info_ids us) k)) [
      | inl named ↦ All-contains IsValidId k (info_ids us) v.valid named
      | inr other ↦ h k (rw (find-user_register C L D T us s k other) at known)
    ]
  ]

  -- Over a collection and library functions that keep their laws, no run of registrations and
  -- lookups makes an id known that is empty or has a colon, if none was known before.
  pub serve-IsClean : (rs : List Request) (s : Server C) → IsClean s → IsClean (serve C D rs s)
  unfolding serve get_designate_users
  serve-IsClean [] s h = h
  serve-IsClean (register us ∷ rs) s h = serve-IsClean rs _ (user_register-IsClean us s h)
  serve-IsClean (lookup ks ∷ rs) s h = serve-IsClean rs s h

  -- Over a collection and library functions that keep their laws, after any run of requests the
  -- counter has grown by the number of registrations that were answered without an error.
  pub registered-serve :
      (rs : List Request) (s : Server C)
      → (serve C D rs s).registered ≡ s.registered + accepted C D rs s
  unfolding serve accepted get_designate_users
  registered-serve [] s = omega arith
  registered-serve (register us ∷ rs) s = elim (registered-user_register C D T us s) [
    | inl (fine, more) ↦ rw fine (omega (arith, registered-serve rs (user_register C D us s).1))
    | inr (e, failed, same) ↦
        rw failed (omega (arith, registered-serve rs (user_register C D us s).1))
  ]
  registered-serve (lookup ks ∷ rs) s = registered-serve rs s
