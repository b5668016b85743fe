-- ===== src/User/Storage.antt =====
-- The storage layers of the user service, from the database up: the collection
-- (pkg/common/storage/database/mgo/user.go), the cache in front of it
-- (pkg/common/storage/cache/redis/user.go) and the controller
-- (pkg/common/storage/controller/user.go). The MongoDB helpers InsertMany and FindOne are not
-- part of the repository: they are the record `Collection`, with `IsLawful` for what they promise.
pub mod Memory
use openim_project_template.Base.{
  ℕ, String, ◌≡◌, ◌≢◌, false, true, contains, string_eq, Option, none, some, List, [], ◌∷◌, map,
  length, All, Any, ◌⊎◌, inl, inr, sym, arith, ◌==◌, nat_eq, if◌then◌else◌, Res, ok, err, panics,
  Act,
}
use openim_project_template.Errors.{Error, coded, err_record_not_found}
use openim_project_template.User.{User}

pub record Collection : Type 1 where
  pub State : Type 0
  -- `mongoutil.InsertMany(ctx, coll, users)`: nil (`none`) or an error
  pub insert_many : List User → State → Option Error × State
  -- `mongoutil.FindOne[*model.User](ctx, coll, bson.M{"user_id": userID})`: a pointer and an error
  pub find_one : String → State → Option User × Option Error

abbrev pub ids : List User → List String
ids = map (λ u. u.user_id)

-- A collection with a unique index on `user_id`, which `NewUserMongo` creates.
pub record IsLawful (C : Collection) : Type 0 where
  -- A find without an error has a document with the id.
  pub found :
      (k : String) (s : C.State)
      → (C.find_one k s).1 ≡ none
      → (u : User) × (C.find_one k s ≡ (some u, none)) × (u.user_id ≡ k)
  -- After an insertion without an error each document is found.
  pub found_after_insert :
      (us : List User) (s : C.State)
      → (C.insert_many us s).0 ≡ none
      → All (λ u. C.find_one u.user_id (C.insert_many us s).1 ≡ (some u, none)) us
  -- An insertion, also one that fails half way, leaves a find as it is, or has put a document
  -- where a find had an error.
  pub grows :
      (us : List User) (s : C.State) (k : String)
      → (C.find_one k (C.insert_many us s).1 ≡ C.find_one k s)
        ⊎ (((C.find_one k s).1 ≢ none)
            × Any
                (λ u. (u.user_id ≡ k) × (C.find_one k (C.insert_many us s).1 ≡ (some u, none)))
                us)
  -- The unique index refuses an id that is there.
  pub refuses_stored :
      (us : List User) (s : C.State) (k : String)
      → contains (ids us) k ≡ true
      → (C.find_one k s).1 ≡ none
      → (C.insert_many us s).0 ≢ none

not-contains-of_Any :
    (P : User → Type 0) (us : List User) (k : String)
    → contains (ids us) k ≡ false
    → ¬ Any (λ u. (u.user_id ≡ k) × P u) us
not-contains-of_Any P [] k h nowhere = absurd nowhere
not-contains-of_Any P (u ∷ us) k h (inl (same, _)) = absurd (ground arith)
not-contains-of_Any P (u ∷ us) k h (inr later) = not-contains-of_Any P us k (ground arith) later

pub Any-of_found :
    (C : Collection) (us : List User) (t : C.State) (k : String)
    → All (λ u. C.find_one u.user_id t ≡ (some u, none)) us
    → contains (ids us) k ≡ true
    → Any (λ u. (u.user_id ≡ k) × (C.find_one k t ≡ (some u, none))) us
Any-of_found C [] t k h m = absurd (ground arith)
Any-of_found C (u ∷ us) t k (here, h) m = elim (string_eq.dec k u.user_id) [
  | yes same ↦ inl (sym same, rw same here)
  | no other ↦ inr (Any-of_found C us t k h (ground arith))
]

-- An insertion leaves the finds of the ids that it does not name as they are.
pub find_other :
    (C : Collection) (L : IsLawful C) (us : List User) (s : C.State) (k : String)
    → contains (ids us) k ≡ false
    → C.find_one k (C.insert_many us s).1 ≡ C.find_one k s
find_other C L us s k h = elim (L.grows us s k) [
  | inl same ↦ same
  | inr (_, new) ↦ absurd (not-contains-of_Any _ us k h new)
]

module _ (C : Collection) where
  abbrev of_error : Option Error → Res (Unit {0})
  of_error none = ok tt
  of_error (some e) = err e

  -- `(*UserMgo).Create`
  unfoldable pub create : List User → Act C.State (Unit {0})
  create us s = (of_error (C.insert_many us s).0, (C.insert_many us s).1)

  -- `(*UserMgo).Take`
  unfoldable pub take : String → C.State → Option User × Option Error
  take k s = C.find_one k s

  -- `(*User).GetUsersInfo` of the cache: both results are returned, also beside an error. The
  -- index 0 of an empty slice panics.
  unfoldable pub get_users_info : List String → C.State → Res (List (Option User) × Option Error)
  unfolding take
  get_users_info [] s = panics
  get_users_info (k ∷ ks) s = ok ((take k s).0 ∷ [], (take k s).1)

  abbrev check_count :
      List String → List (Option User) × Option Error → List (Option User) × Option Error
  check_count ks (us, some e) = (us, some e)
  check_count ks (us, none) =
      if length us == length ks
      then (us, none)
      else (us, some (coded err_record_not_found "userID not found"))

  abbrev checked :
      List String
      → Res (List (Option User) × Option Error)
      → Res (List (Option User) × Option Error)
  checked ks (ok r) = ok (check_count ks r)
  checked ks (err e) = err e
  checked ks panics = panics

  -- `(*UserStorageManager).FindWithError`
  unfoldable pub find_with_error : List String → C.State → Res (List (Option User) × Option Error)
  unfolding get_users_info
  find_with_error ks s = checked ks (get_users_info ks s)

  -- `(*UserStorageManager).Create`
  unfoldable pub storage_create : List User → Act C.State (Unit {0})
  unfolding create
  storage_create us = create us
