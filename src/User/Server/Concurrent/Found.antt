-- ===== src/User/Server/Concurrent/Found.antt =====
-- What a registration that is answered without an error leaves, beside others.
use openim_project_template.Base.{
  ◌≡◌, refl, ap, sym, ◌∙◌, inl, inr, List, [], ◌∷◌, ◌++◌, map, none, some, All, ok, nat_eq,
  string_eq,
}
use mathlib.Core.List.{append-nil, append_assoc}
use openim_project_template.Tools.{DataUtil}
use openim_project_template.User.{User, UserInfo, to_model}
use openim_project_template.User.Directory.{Request, register, lookup, done, users, fault, crash}
use openim_project_template.User.Storage
use openim_project_template.User.Storage.{Collection}
use openim_project_template.User.Server.{Server, get_designate_users}
use openim_project_template.User.Server.Lookup.{get_found}
use openim_project_template.User.Server.Concurrent.{
  Pc, waiting, inserting, finished, Move, refuses, begins, inserts, stops, counts, looks_up, Step,
  here, there, Reached, start, later,
}

module _ (C : Collection) where
  abbrev IsStored : C.State → UserInfo → Type 0
  IsStored x u = C.find_one u.user_id x ≡ (some (to_model u), none)

  -- What a goroutine has stored: the users before those that are still to come, or all of them.
  abbrev HasStored : C.State → Pc → Type 0
  HasStored x (inserting us rest) =
      (past left : List UserInfo) × (us ≡ past ++ left)
      × (rest ≡ map to_model left)
      × All (IsStored x) past
  HasStored x (finished (register us) done) = All (IsStored x) us
  HasStored x _ = Unit {0}

  -- Each user is what a lookup of its id answers.
  abbrev pub IsAnswered : Server C → UserInfo → Type 0
  IsAnswered s u = (get_designate_users C (u.user_id ∷ []) s).0 ≡ ok (u ∷ [])

  -- A registration that is done has each of its users answered.
  abbrev pub Kept : Server C → Pc → Type 0
  Kept s (finished (register us) done) = All (IsAnswered s) us
  Kept s _ = Unit {0}

  Kept-of_stored : (s : Server C) (p : Pc) → HasStored s.db p → Kept s p
  Kept-of_stored s (finished (register us) done) h = answers us h
    where
      answers : (us : List UserInfo) → All (IsStored s.db) us → All (IsAnswered s) us
      answers [] h = tt
      answers (u ∷ us) (here_, h) =
          (ap (λ o. o.0) (get_found C s u.user_id (to_model u) here_), answers us h)
  Kept-of_stored s (finished (register us) (users _)) h = tt
  Kept-of_stored s (finished (register us) (fault _)) h = tt
  Kept-of_stored s (finished (register us) crash) h = tt
  Kept-of_stored s (finished (lookup ks) a) h = tt
  Kept-of_stored s (waiting r) h = tt
  Kept-of_stored s (inserting us rest) h = tt

module _ (C : Collection) (L : Storage.IsLawful C) (D : DataUtil) where
  stays :
      (us : List User) (x : C.State) (u : UserInfo)
      → IsStored C x u
      → IsStored C (C.insert_many us x).1 u
  stays us x u h = elim (L.grows us x u.user_id) [
    | inl same ↦ same ∙ h
    | inr (absent, _) ↦ absurd (absent (ap (λ o. o.1) h))
  ]

  stay :
      (us : List User) (x : C.State) (vs : List UserInfo)
      → All (IsStored C x) vs
      → All (IsStored C (C.insert_many us x).1) vs
  stay us x [] h = tt
  stay us x (v ∷ vs) (one, h) = (stays us x v one, stay us x vs h)

  HasStored-stays :
      (us : List User) (x : C.State) (p : Pc)
      → HasStored C x p
      → HasStored C (C.insert_many us x).1 p
  HasStored-stays us x (finished (register vs) done) h = stay us x vs h
  HasStored-stays us x (finished (register vs) (users _)) h = tt
  HasStored-stays us x (finished (register vs) (fault _)) h = tt
  HasStored-stays us x (finished (register vs) crash) h = tt
  HasStored-stays us x (finished (lookup ks) a) h = tt
  HasStored-stays us x (waiting r) h = tt
  HasStored-stays us x (inserting vs rest) (past, left, a, b, h) =
      (past, left, a, b, stay us x past h)

  All-append :
      (x : C.State) (vs : List UserInfo) (v : UserInfo)
      → All (IsStored C x) vs
      → IsStored C x v
      → All (IsStored C x) (vs ++ v ∷ [])
  All-append x [] v h one = (one, tt)
  All-append x (w ∷ vs) v (first, h) one = (first, All-append x vs v h one)

  inserted :
      (us : List UserInfo) (u : User) (rest : List User) (x : C.State)
      → (C.insert_many (u ∷ []) x).0 ≡ none
      → HasStored C x (inserting us (u ∷ rest))
      → HasStored C (C.insert_many (u ∷ []) x).1 (inserting us rest)
  inserted us u rest x fine (past, [], a, b, h) = absurd (cc)
  inserted us u rest x fine (past, v ∷ left, a, b, h) =
      let same : u ≡ to_model v = cc in
      let more : rest ≡ map to_model left = cc in
      let one : IsStored C (C.insert_many (u ∷ []) x).1 v =
        ap (λ z. C.find_one z.user_id (C.insert_many (u ∷ []) x).1) (sym same)
        ∙ (L.found_after_insert (u ∷ []) x fine).0
        ∙ ap (λ z. (some z, none)) same in
      (
        past ++ v ∷ [],
        left,
        a ∙ sym (append_assoc past (v ∷ []) left),
        more,
        All-append (C.insert_many (u ∷ []) x).1 past v (stay (u ∷ []) x past h) one,
      )

  every_user :
      (us : List UserInfo) (x : C.State) → HasStored C x (inserting us []) → All (IsStored C x) us
  every_user us x (past, [], a, b, h) = rw (a, append-nil past) h
  every_user us x (past, v ∷ left, a, b, h) = absurd (cc)

  -- A step keeps what its goroutine has stored, and what the others have.
  Move-HasStored :
      {s s' : Server C} {p p' : Pc}
      → Move C D s p s' p'
      → HasStored C s.db p
      → HasStored C s'.db p' × ((q : Pc) → HasStored C s.db q → HasStored C s'.db q)
  Move-HasStored (refuses _) h = (tt, λ q k. k)
  Move-HasStored (begins {us = us} _) h = (([], us, refl, refl, tt), λ q k. k)
  Move-HasStored {s = s} (inserts {us = us} {u = u} {rest = rest} fine) h =
      (inserted us u rest s.db fine h, HasStored-stays (u ∷ []) s.db)
  Move-HasStored {s = s} (stops {u = u} _) h = (tt, HasStored-stays (u ∷ []) s.db)
  Move-HasStored {s = s} (counts {us = us}) h = (every_user us s.db h, λ q k. k)
  Move-HasStored looks_up h = (tt, λ q k. k)

  Step-HasStored :
      {s s' : Server C} {ps ps' : List Pc}
      → Step C D s ps s' ps'
      → All (HasStored C s.db) ps
      → All (HasStored C s'.db) ps' × ((q : Pc) → HasStored C s.db q → HasStored C s'.db q)
  Step-HasStored {s' = s'} (here {ps = ps} move) (h, hs) =
      let (first, others) = Move-HasStored move h in ((first, all_of ps others hs), others)
    where
      all_of :
          {x y : C.State} (qs : List Pc)
          → ((q : Pc) → HasStored C x q → HasStored C y q)
          → All (HasStored C x) qs
          → All (HasStored C y) qs
      all_of [] f h = tt
      all_of (q ∷ qs) f (a, h) = (f q a, all_of qs f h)
  Step-HasStored (there {p = p} step) (h, hs) =
      let (rest, others) = Step-HasStored step hs in ((others p h, rest), others)

  Reached-HasStored :
      {requests : List Request} {s t : Server C} {ps : List Pc}
      → Reached C D requests s t ps
      → All (HasStored C t.db) ps
  Reached-HasStored {requests = requests} {s = s} start = none_yet s.db requests
    where
      none_yet : (x : C.State) (rs : List Request) → All (HasStored C x) (map waiting rs)
      none_yet x [] = tt
      none_yet x (r ∷ rs) = (tt, none_yet x rs)
  Reached-HasStored (later r step) = (Step-HasStored step (Reached-HasStored r)).0

  -- Over a collection that keeps its laws, whatever the order in which goroutines that serve
  -- requests at the same time take their steps, in which each document is inserted by a step of
  -- its own: each registration that is answered without an error has, from then on, each of its
  -- users answered by a lookup of its id.
  pub Reached-Kept :
      {requests : List Request} {s t : Server C} {ps : List Pc}
      → Reached C D requests s t ps
      → All (Kept C t) ps
  Reached-Kept {t = t} {ps = ps} r = all_kept ps (Reached-HasStored r)
    where
      all_kept : (qs : List Pc) → All (HasStored C t.db) qs → All (Kept C t) qs
      all_kept [] h = tt
      all_kept (q ∷ qs) (a, h) = (Kept-of_stored C t q a, all_kept qs h)
