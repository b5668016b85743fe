-- ===== src/Tools.antt =====
-- The functions of github.com/openimsdk/tools/utils/datautil that the code calls. They are not
-- part of the repository: each is a parameter, with its documented behaviour as a law.
use openim_project_template.Base.{
  ℕ, String, ◌≡◌, Bool, true, false, ◌||◌, Option, some, none, List, [], ◌∷◌, map, ◌==◌, contains,
  string_eq, if◌then◌else◌, get_elem?, Res, ok, err, ◌≢◌,
}
use openim_project_template.Base.Dict.{Dict, lookup}
use openim_project_template.Errors.{Error}
pub mod Reference

-- Some text stands twice in the list.
abbrev pub has_repeat : List String → Bool
has_repeat [] = false
has_repeat (x ∷ xs) = contains xs x || has_repeat xs

-- The last of the elements that have the key, which is what a map built in order keeps.
abbrev pub last_with : {A : Type 0} → (A → String) → String → List A → Option A
last_with f k [] = none
last_with f k (a ∷ as_) = elim (last_with f k as_) [
  | some b ↦ some b
  | none ↦ (if k == f a then some a else none)
]

-- An `int` that may be negative, as an index: `negative` is any number below 0.
pub data Index : Type 0 where
  at : ℕ → Index
  negative : Index

pub record DataUtil : Type 1 where
  -- `DuplicateAny(es, fn)`
  pub duplicate_any : (A : Type 0) → List A → (A → String) → Bool
  -- `Single(a, b)`
  pub single : List String → List String → List String
  -- `Slice(es, fn)`
  pub slice : (A B : Type 0) → List A → (A → B) → List B
  -- `SliceToMap(es, fn)`
  pub slice_to_map : (A : Type 0) → List A → (A → String) → Dict String A
  -- `Distinct(es)`
  pub distinct : List String → List String
  -- `GetElemByIndex(array, index)`
  pub get_elem_by_index : List ℕ → Index → Res ℕ

pub record IsLawful (D : DataUtil) : Type 1 where
  -- Whether two elements have the same key.
  pub duplicate_any_lem :
      (A : Type 0) (es : List A) (f : A → String) → D.duplicate_any A es f ≡ has_repeat (map f es)
  -- What is in one of the two, and not in both.
  pub contains-single :
      (a b : List String) (x : String)
      → contains (D.single a b) x
        ≡ (if contains a x then (if contains b x then false else true) else contains b x)
  pub slice_lem : (A B : Type 0) (es : List A) (f : A → B) → D.slice A B es f ≡ map f es
  pub lookup-slice_to_map :
      (A : Type 0) (es : List A) (f : A → String) (k : String)
      → lookup k (D.slice_to_map A es f) ≡ last_with f k es
  pub contains-distinct :
      (xs : List String) (x : String) → contains (D.distinct xs) x ≡ contains xs x
  pub has_repeat-distinct : (xs : List String) → has_repeat (D.distinct xs) ≡ false
  pub get_elem_in_range :
      (xs : List ℕ) (i x : ℕ) → get_elem? xs i ≡ some x → D.get_elem_by_index xs (at i) ≡ ok x
  pub get_elem_out_of_range :
      (xs : List ℕ) (i : ℕ)
      → get_elem? xs i ≡ none
      → (e : Error) × (D.get_elem_by_index xs (at i) ≡ err e)
  pub get_elem_negative : (xs : List ℕ) → (e : Error) × (D.get_elem_by_index xs negative ≡ err e)
