-- ===== src/User/Server/Concurrent/Winner.antt =====
-- Registrations of one id that are served at the same time.
use openim_project_template.Base.{
  ℕ, ◌+◌, ◌≤◌, String, ◌≡◌, refl, ap, ◌∙◌, List, [], ◌∷◌, arith, total, contains, string_eq,
  if◌then◌else◌, Option, none, some, map, inl, inr, Bool, true, false, not, ◌&&◌, Option-cases,
}
use openim_project_template.Errors.{Error}
use openim_project_template.Tools.{DataUtil}
use openim_project_template.User.{User, UserInfo, to_model}
use openim_project_template.User.Directory.{
  Request, register, lookup, Answer, done, users, fault, crash,
}
use openim_project_template.User.Storage
use openim_project_template.User.Storage.{Collection, ids, find_other}
use openim_project_template.User.Server.{Server}
use openim_project_template.User.Server.Valid.{info_ids}
use openim_project_template.User.Server.Concurrent.{
  Pc, waiting, inserting, finished, Move, refuses, begins, inserts, stops, counts, looks_up, Step,
  here, there, Reached, start, later, answered,
}

-- 1 for a registration that is done and names the id.
abbrev pub gains : String → Request × Answer → ℕ
gains k (register us, done) = if contains (info_ids us) k then 1 else 0
gains k (register us, users _) = 0
gains k (register us, fault _) = 0
gains k (register us, crash) = 0
gains k (lookup ks, a) = 0

abbrev pub wins : String → List (Request × Answer) → ℕ
wins k = total (gains k)

-- 1 for a registration that has inserted the id, and has not failed.
abbrev pub holds : String → Pc → ℕ
holds k (waiting r) = 0
holds k (inserting us rest) =
    if contains (info_ids us) k && not (contains (ids rest) k) then 1 else 0
holds k (finished r a) = gains k (r, a)

bit_small : (b : Bool) → (if b then 1 else 0) ≤ 1
bit_small true = omega arith
bit_small false = omega arith

wins-holds : (k : String) (ps : List Pc) → wins k (answered ps) ≤ total (holds k) ps
wins-holds k [] = omega arith
wins-holds k (waiting r ∷ ps) = omega (arith, wins-holds k ps)
wins-holds k (inserting us rest ∷ ps) = omega (arith, wins-holds k ps)
wins-holds k (finished r a ∷ ps) = omega (arith, wins-holds k ps)

holds-waiting : (k : String) (rs : List Request) → total (holds k) (map waiting rs) ≡ 0
holds-waiting k [] = refl
holds-waiting k (r ∷ rs) = omega (arith, holds-waiting k rs)

-- 1 if a find has no error.
abbrev pub is_found : Option Error → ℕ
is_found none = 1
is_found (some e) = 0

abbrev pub known : (C : Collection) → String → C.State → ℕ
known C k x = is_found (C.find_one k x).1

ids-to_model :
    (us : List UserInfo) (k : String)
    → contains (ids (map to_model us)) k ≡ contains (info_ids us) k
ids-to_model [] k = refl
ids-to_model (u ∷ us) k = ground (arith, ids-to_model us k)

module _ (C : Collection) (L : Storage.IsLawful C) (D : DataUtil) where
  known-grows :
      (us : List User) (x : C.State) (k : String) → known C k x ≤ known C k (C.insert_many us x).1
  known-grows us x k = elim (L.grows us x k) [
    | inl same ↦ omega (arith, ap (λ o. is_found o.1) same)
    | inr (absent, _) ↦ elim (Option-cases (C.find_one k x).1) [
      | inl found ↦ absurd (absent found)
      | inr (e, failed) ↦ omega (arith, ap is_found failed)
    ]
  ]

  -- An insertion that is not refused is of an id that was not known, and now is.
  known-inserted :
      (u : User) (x : C.State)
      → (C.insert_many (u ∷ []) x).0 ≡ none
      → (known C u.user_id x ≡ 0) × (known C u.user_id (C.insert_many (u ∷ []) x).1 ≡ 1)
  known-inserted u x fine = (
    elim (Option-cases (C.find_one u.user_id x).1) [
      | inl found ↦ absurd (L.refuses_stored (u ∷ []) x u.user_id (ground arith) found fine)
      | inr (e, failed) ↦ ap is_found failed
    ],
    ap (λ o. is_found o.1) (L.found_after_insert (u ∷ []) x fine).0,
  )

  -- A step adds an id only to a collection that does not know it.
  Move-holds :
      (k : String) {s s' : Server C} {p p' : Pc}
      → Move C D s p s' p'
      → holds k p' + known C k s.db ≤ holds k p + known C k s'.db
  Move-holds k (refuses _) = omega arith
  Move-holds k (begins {us = us} _) = ground (arith, ids-to_model us k)
  Move-holds k {s = s} (inserts {us = us} {u = u} {rest = rest} fine) =
      elim (string_eq.dec k u.user_id) [
        | yes e ↦
            let (before, after) = known-inserted u s.db fine in
            let before' : known C k s.db ≡ 0 = ap (λ z. known C z s.db) e ∙ before in
            let after' : known C k (C.insert_many (u ∷ []) s.db).1 ≡ 1 =
              ap (λ z. known C z (C.insert_many (u ∷ []) s.db).1) e ∙ after in
            omega (
              arith,
              bit_small (contains (info_ids us) k && not (contains (ids rest) k)),
              before',
              after',
            )
        | no n ↦
            let kept : known C k (C.insert_many (u ∷ []) s.db).1 ≡ known C k s.db =
              ap (λ o. is_found o.1) (find_other C L (u ∷ []) s.db k (ground (arith, n))) in
            let same : contains (ids (u ∷ rest)) k ≡ contains (ids rest) k = ground (arith, n) in
            rw (kept, same) (omega arith)
      ]
  Move-holds k {s = s} (stops {u = u} _) = omega (arith, known-grows (u ∷ []) s.db k)
  Move-holds k counts = ground arith
  Move-holds k looks_up = omega arith

  Step-holds :
      (k : String) {s s' : Server C} {ps ps' : List Pc}
      → Step C D s ps s' ps'
      → total (holds k) ps' + known C k s.db ≤ total (holds k) ps + known C k s'.db
  Step-holds k (here move) = omega (arith, Move-holds k move)
  Step-holds k (there step) = omega (arith, Step-holds k step)

  Reached-holds :
      {requests : List Request} {s t : Server C} {ps : List Pc} (k : String)
      → Reached C D requests s t ps
      → known C k s.db + total (holds k) ps ≤ known C k t.db
  Reached-holds {requests = requests} k start = omega (arith, holds-waiting k requests)
  Reached-holds k (later r step) = omega (arith, Reached-holds k r, Step-holds k step)

  known-small : (k : String) (x : C.State) → known C k x ≤ 1
  known-small k x = elim (Option-cases (C.find_one k x).1) [
    | inl found ↦ omega (arith, ap is_found found)
    | inr (e, failed) ↦ omega (arith, ap is_found failed)
  ]

  -- Over a collection that keeps its laws, whatever the order in which goroutines that serve
  -- requests at the same time take their steps, in which each document is inserted by a step of
  -- its own: of the registrations that name an id at most one has been answered without an
  -- error, and none if the collection had the id before.
  pub Reached-one_winner :
      {requests : List Request} {s t : Server C} {ps : List Pc} (k : String)
      → Reached C D requests s t ps
      → known C k s.db + wins k (answered ps) ≤ 1
  Reached-one_winner {t = t} {ps = ps} k r =
      omega (arith, Reached-holds k r, wins-holds k ps, known-small k t.db)
