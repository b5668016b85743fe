-- ===== src/User/Storage/Memory.antt =====
-- A collection in memory that meets `IsLawful`: documents in a list, the whole insertion refused
-- if an id is stored or stands twice.
use openim_project_template.Base.{
  String, ◌≡◌, refl, Bool, false, true, ◌||◌, contains, string_eq, Option, none, some, List, [],
  ◌∷◌, ◌++◌, All, Any, ◌⊎◌, inl, inr, ◌≢◌, ap, Bool-cases, ◌==◌, if◌then◌else◌, arith,
}
use openim_project_template.Errors.{Error, foreign}
use openim_project_template.Tools.{has_repeat}
use openim_project_template.User.{User}
use openim_project_template.User.Storage.{Collection, IsLawful, ids, Any-of_found}

abbrev find : String → List User → Option User
find k [] = none
find k (u ∷ us) = if k == u.user_id then some u else find k us

abbrev finding : Option User → Option User × Option Error
finding none = (none, some (foreign "mongo: no documents in result"))
finding (some u) = (some u, none)

abbrev any_stored : List User → List User → Bool
any_stored [] s = false
any_stored (u ∷ us) s = contains (ids s) u.user_id || any_stored us s

abbrev insert : List User → List User → Option Error × List User
insert us s =
    if has_repeat (ids us) || any_stored us s
    then (some (foreign "E11000 duplicate key error"), s)
    else (none, us ++ s)

abbrev pub memory : Collection
memory = record { State = List User; insert_many = insert; find_one = λ k s. finding (find k s) }

find-id :
    (k : String) (s : List User)
    → (finding (find k s)).1 ≡ none
    → (u : User) × (finding (find k s) ≡ (some u, none)) × (u.user_id ≡ k)
find-id k [] h = absurd (ground arith)
find-id k (u ∷ s) h = elim (string_eq.dec k u.user_id) [
  | yes same ↦ (u, ground arith, ground arith)
  | no other ↦ let (v, found, id) = find-id k s (ground arith) in (v, ground (arith, found), id)
]

find-append :
    (k : String) (us s : List User) → contains (ids us) k ≡ false → find k (us ++ s) ≡ find k s
find-append k [] s h = refl
find-append k (u ∷ us) s h = ground (arith, find-append k us s)

abbrev IsFoundIn : List User → User → Type 0
IsFoundIn s u = finding (find u.user_id s) ≡ (some u, none)

found_behind :
    (v : User) (s us : List User)
    → contains (ids us) v.user_id ≡ false
    → All (IsFoundIn s) us
    → All (IsFoundIn (v ∷ s)) us
found_behind v s [] h a = tt
found_behind v s (u ∷ us) h (here, a) = (ground arith, found_behind v s us (ground arith) a)

All-found : (us s : List User) → has_repeat (ids us) ≡ false → All (IsFoundIn (us ++ s)) us
All-found [] s h = tt
All-found (u ∷ us) s h =
    (ground arith, found_behind u (us ++ s) us (ground arith) (All-found us s (ground arith)))

any_stored-of_mem :
    (us s : List User) (k : String)
    → contains (ids us) k ≡ true
    → contains (ids s) k ≡ true
    → any_stored us s ≡ true
any_stored-of_mem [] s k h m = cc
any_stored-of_mem (u ∷ us) s k h m = ground (arith, any_stored-of_mem us s k)

contains-of_find :
    (k : String) (s : List User) → (finding (find k s)).1 ≡ none → contains (ids s) k ≡ true
contains-of_find k [] h = absurd (ground arith)
contains-of_find k (u ∷ s) h = ground (arith, contains-of_find k s)

pub memory-IsLawful : IsLawful memory
memory-IsLawful = record {
  found = find-id;
  found_after_insert =
      λ us s h. let (fresh, new) = accepted us s h in rw new (All-found us s fresh);
  grows = grown;
  refuses_stored =
      λ us s k h m. ground (arith, any_stored-of_mem us s k h (contains-of_find k s m));
}
  where
    accepted :
        (us s : List User)
        → (insert us s).0 ≡ none
        → (has_repeat (ids us) ≡ false) × ((insert us s).1 ≡ us ++ s)
    accepted us s h = ground arith

    outcome :
        (us s : List User)
        → ((insert us s).1 ≡ s)
          ⊎ ((has_repeat (ids us) ≡ false)
              × (any_stored us s ≡ false)
              × ((insert us s).1 ≡ us ++ s))
    outcome us s = elim (Bool-cases (has_repeat (ids us) || any_stored us s)) [
      | inl refused ↦ inl (ground arith)
      | inr fine ↦ inr (ground arith, ground arith, ground arith)
    ]

    grown :
        (us s : List User) (k : String)
        → (finding (find k (insert us s).1) ≡ finding (find k s))
          ⊎ (((finding (find k s)).1 ≢ none)
              × Any (λ u. (u.user_id ≡ k) × (finding (find k (insert us s).1) ≡ (some u, none))) us)
    grown us s k = elim (outcome us s) [
      | inl same ↦ inl (rw same refl)
      | inr (fresh, none_stored, new) ↦ elim (Bool-cases (contains (ids us) k)) [
        | inl named ↦ inr (
          λ fine.
              absurd (ground (arith, any_stored-of_mem us s k named (contains-of_find k s fine))),
          rw new (Any-of_found memory us (us ++ s) k (All-found us s fresh) named),
        )
        | inr other ↦ inl (rw new (ap finding (find-append k us s other)))
      ]
    ]
