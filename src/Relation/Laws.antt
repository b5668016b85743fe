-- ===== src/Relation/Laws.antt =====
-- What `Is` answers after `Add`, and after the package's `init`.
use openim_project_template.Base.{
  ℕ, ◌≤◌, ◌<◌, ◌≡◌, ◌↔◌, ◌⊎◌, refl, ◌∙◌, ◌==◌, nat_eq, Bool, true, false, ◌||◌, ◌&&◌, none, some,
  List, [], ◌∷◌, length, contains, ok, panics, arith, Option,
}
use openim_project_template.Base.Dict.{lookup, insert, lookup-insert, lookup-nil}
use openim_project_template.Errors.{
  user_id_not_found_error, group_id_not_found_error, group_id_existed,
}
use openim_project_template.Relation.{
  Codes, Relation, children, put_all, add_from, add, has, is_child, init_relation,
}

-- Some place of `parent` in the list lies before some place of `child`.
abbrev pub precedes : ℕ → ℕ → List ℕ → Bool
precedes parent child [] = false
precedes parent child (x ∷ xs) = parent == x && contains xs child || precedes parent child xs

has-put_all :
    (codes : List ℕ) (s : Codes) (c : ℕ)
    → has (some (put_all codes s)) c ≡ (contains codes c || has (some s) c)
unfolding put_all
has-put_all [] s c = refl
has-put_all (d ∷ codes) s c =
    ground (arith, has-put_all codes (insert d tt s) c, lookup-insert c d tt s)

has-children : (o : Option Codes) (c : ℕ) → has (some (children o)) c ≡ has o c
has-children none c = ground (arith, lookup-nil {V = Unit {0}} c)
has-children (some s) c = refl

has-add_from :
    (codes : List ℕ) (m : Relation) (p c : ℕ)
    → has (lookup p (add_from codes m)) c ≡ (precedes p c codes || has (lookup p m) c)
unfolding add_from
has-add_from [] m p c = refl
has-add_from (x ∷ []) m p c = ground arith
has-add_from (x ∷ y ∷ codes) m p c =
    let s : Codes = put_all (y ∷ codes) (children (lookup x m)) in
    has-add_from (y ∷ codes) (insert x s m) p c
    ∙ ground (
      arith,
      lookup-insert p x s m,
      has-put_all (y ∷ codes) (children (lookup x m)) c,
      has-children (lookup x m) c,
    )

-- After Add of at least two codes, Is holds of a pair exactly when it held before or the first
-- code stands before the second in the list.
pub is_child-add :
    (codes : List ℕ) (m : Relation)
    → 2 ≤ length codes
    → (m' : Relation) × (add codes m ≡ ok m')
      × ((p c : ℕ) → is_child m' p c ≡ (is_child m p c || precedes p c codes))
unfolding add is_child
is_child-add codes m h =
    (add_from codes m, ground arith, λ p c. ground (arith, has-add_from codes m p c))

-- `Add` panics exactly if the list has fewer than two codes.
add-panics_iff : (codes : List ℕ) (m : Relation) → (add codes m ≡ panics) ↔ (length codes < 2)
unfolding add
add-panics_iff codes m = (λ h. ground arith, λ h. ground arith)

is_child-pair :
    (a b : ℕ) (m : Relation)
    → (m' : Relation) × (add (a ∷ b ∷ []) m ≡ ok m')
      × ((p c : ℕ) → is_child m' p c ≡ (is_child m p c || (p == a && c == b)))
is_child-pair a b m =
    let (m', done, same) = is_child-add (a ∷ b ∷ []) m (omega arith) in
    (m', done, λ p c. ground (arith, same p c))

-- The relation that the package starts with relates each code to itself, RecordNotFound to
-- UserIDNotFound and GroupIDNotFound, DuplicateKey to GroupIDExisted, and no other codes.
pub is_child-init :
    (rnf dk : ℕ)
    → (m : Relation) × (init_relation rnf dk ≡ ok m)
      × ((p c : ℕ)
          → (is_child m p c ≡ true) ↔ (
              (p ≡ c)
              ⊎ ((p ≡ rnf) × ((c ≡ user_id_not_found_error) ⊎ (c ≡ group_id_not_found_error))
                  ⊎ (p ≡ dk) × (c ≡ group_id_existed))))
unfolding init_relation is_child
is_child-init rnf dk =
    let (a, done_a, at_a) = is_child-pair rnf user_id_not_found_error [] in
    let (b, done_b, at_b) = is_child-pair rnf group_id_not_found_error a in
    let (m, done, at) = is_child-pair dk group_id_existed b in
    (
      m,
      rw (done_a, done_b) done,
      λ p c. ground (arith, at_a p c, at_b p c, at p c, lookup-nil {V = Codes} p),
    )
