-- ===== src/Tools/Reference.antt =====
-- Concrete functions that meet the laws of `Tools`, for runs and for examples.
use openim_project_template.Base.{
  contains-append, ℕ, String, ◌≡◌, refl, false, Option, some, none, List, [], ◌∷◌, ◌++◌, map,
  contains, string_eq, if◌then◌else◌, get_elem?, Res, ok, err, arith, not,
}
use openim_project_template.Base.Dict
use openim_project_template.Base.Dict.{Dict, lookup}
use openim_project_template.Errors.{new}
use openim_project_template.Tools.{DataUtil, IsLawful, Index, at, negative, has_repeat, last_with}

abbrev distinct : List String → List String
distinct [] = []
distinct (x ∷ xs) = let rest = distinct xs in if contains xs x then rest else x ∷ rest

-- The elements of the first list that the second lacks.
abbrev missing : List String → List String → List String
missing [] b = []
missing (x ∷ xs) b = let rest = missing xs b in if contains b x then rest else x ∷ rest

abbrev to_map : {A : Type 0} → List A → (A → String) → Dict String A → Dict String A
to_map [] f m = m
to_map (a ∷ as_) f m = to_map as_ f (Dict.insert (f a) a m)

abbrev of_get : Option ℕ → Res ℕ
of_get none = err (new "index out of range")
of_get (some x) = ok x

abbrev at_index : List ℕ → Index → Res ℕ
at_index xs (at i) = of_get (get_elem? xs i)
at_index xs negative = err (new "index out of range")

abbrev pub reference : DataUtil
reference = record {
  duplicate_any = λ A es f. has_repeat (map f es);
  single = λ a b. missing a b ++ missing b a;
  slice = λ A B es f. map f es;
  slice_to_map = λ A es f. to_map es f [];
  distinct = distinct;
  get_elem_by_index = at_index;
}

contains-missing :
    (a b : List String) (x : String)
    → contains (missing a b) x ≡ (if contains a x then not (contains b x) else false)
contains-missing [] b x = refl
contains-missing (y ∷ a) b x = ground (arith, contains-missing a b x)

contains-distinct : (xs : List String) (x : String) → contains (distinct xs) x ≡ contains xs x
contains-distinct [] x = refl
contains-distinct (y ∷ xs) x = ground (arith, contains-distinct xs x)

has_repeat-distinct : (xs : List String) → has_repeat (distinct xs) ≡ false
has_repeat-distinct [] = refl
has_repeat-distinct (y ∷ xs) = ground (arith, has_repeat-distinct xs, contains-distinct xs y)

lookup-to_map :
    {A : Type 0} (es : List A) (f : A → String) (m : Dict String A) (k : String)
    → lookup k (to_map es f m) ≡ elim (last_with f k es) [ some b ↦ some b | none ↦ lookup k m ]
lookup-to_map [] f m k = refl
lookup-to_map (a ∷ as_) f m k =
    ground (arith, lookup-to_map as_ f (Dict.insert (f a) a m) k, Dict.lookup-insert k (f a) a m)

lookup-to_map_nil :
    {A : Type 0} (es : List A) (f : A → String) (k : String)
    → lookup k (to_map es f []) ≡ last_with f k es
lookup-to_map_nil {A} es f k = ground (arith, lookup-to_map es f [] k, Dict.lookup-nil {V = A} k)

pub reference-IsLawful : IsLawful reference
reference-IsLawful = record {
  duplicate_any_lem = λ A es f. refl;
  contains-single = λ a b x. ground (
    arith,
    contains-append (missing a b) (missing b a) x,
    contains-missing a b x,
    contains-missing b a x,
  );
  slice_lem = λ A B es f. refl;
  lookup-slice_to_map = λ A es f k. lookup-to_map_nil es f k;
  contains-distinct = contains-distinct;
  has_repeat-distinct = has_repeat-distinct;
  get_elem_in_range = λ xs i x h. ground arith;
  get_elem_out_of_range = λ xs i h. (new "index out of range", ground arith);
  get_elem_negative = λ xs. (new "index out of range", refl);
}
