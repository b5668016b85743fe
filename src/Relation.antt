-- ===== src/Relation.antt =====
-- The relation between error codes, pkg/common/servererrs/relation.go: a map from a parent code to
-- the set of its child codes. Codes are the non-negative integers.
pub mod Laws
use openim_project_template.Base.{
  ℕ, ◌==◌, nat_eq, if◌then◌else◌, ltb, Bool, true, false, Option, none, some, List, [], ◌∷◌, length,
  Res, ok, panics, bind_res,
}
use openim_project_template.Base.Dict.{Dict, lookup, insert}
use openim_project_template.Errors.{
  user_id_not_found_error, group_id_not_found_error, group_id_existed,
}

-- `map[int]struct{}`
abbrev pub Codes : Type 0
Codes = Dict ℕ (Unit {0})

-- The struct `relation`, by its field `m`.
abbrev pub Relation : Type 0
Relation = Dict ℕ Codes

-- `r.m[parent]`, or a new map
abbrev pub children : Option Codes → Codes
children none = []
children (some s) = s

-- The inner loop of `Add`.
unfoldable pub put_all : List ℕ → Codes → Codes
put_all [] s = s
put_all (code ∷ codes) s = put_all codes (insert code tt s)

-- The outer loop of `Add`: the head is `codes[i-1]`, what follows it is `codes[i:]`.
unfoldable pub add_from : List ℕ → Relation → Relation
add_from [] m = m
add_from (parent ∷ []) m = m
add_from (parent ∷ c ∷ codes) m =
    add_from (c ∷ codes) (insert parent (put_all (c ∷ codes) (children (lookup parent m))) m)

-- `Add`
unfoldable pub add : List ℕ → Relation → Res Relation
add codes m = if ltb (length codes) 2 then panics else ok (add_from codes m)

abbrev pub has : Option Codes → ℕ → Bool
has none child = false
has (some s) child = elim (lookup child s) [ none ↦ false | some t ↦ true ]

-- `Is`
unfoldable pub is_child : Relation → ℕ → ℕ → Bool
is_child m parent child = if parent == child then true else has (lookup parent m) child

-- The package's `init`, from the empty relation. The two codes are constants of the library errs.
unfoldable pub init_relation : (record_not_found duplicate_key : ℕ) → Res Relation
init_relation record_not_found duplicate_key =
    bind_res (add (record_not_found ∷ user_id_not_found_error ∷ []) []) λ a.
      bind_res (add (record_not_found ∷ group_id_not_found_error ∷ []) a)
        λ b. add (duplicate_key ∷ group_id_existed ∷ []) b
