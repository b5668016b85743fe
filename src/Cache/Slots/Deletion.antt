-- ===== src/Cache/Slots/Deletion.antt =====
-- What `ExecDelWithKeys` of pkg/common/storage/cache/redis/batch_handler.go deletes in a cluster.
use openim_project_template.Base.{
  ℕ, String, ◌≡◌, ◌∙◌, refl, ap, ltb, nat_eq, ◌&&◌, Option, none, some, List, [], ◌∷◌, length, ok,
  arith, true, false, string_eq, contains, Bool-cases, inl, inr,
}
use openim_project_template.Base.Dict.{Dict, lookup, is_map, is_map-insert, lookup-nil}
use openim_project_template.Errors.{Error}
use openim_project_template.Tools
use openim_project_template.Tools.{DataUtil, has_repeat}
use openim_project_template.Cache.Slots.{
  Cluster, keys_of, add_to, collect, group_keys_by_slot, tag_all, exec_del, exec_del_with_keys,
}
use openim_project_template.Cache.Slots.Laws.{is_slot, in_slot, keys_of-collect}

contains-in_slot :
    (cl : Cluster) (n : ℕ) (keys : List String) (key : String)
    → contains (in_slot cl n keys) key ≡ (contains keys key && is_slot n (cl.slot key))
contains-in_slot cl n [] key = refl
contains-in_slot cl n (k ∷ keys) key = elim (string_eq.dec key k) [
  | yes e ↦ ground (arith, e, contains-in_slot cl n keys key)
  | no other ↦ ground (arith, other, contains-in_slot cl n keys key)
]

has_repeat-in_slot :
    (cl : Cluster) (n : ℕ) (keys : List String)
    → has_repeat keys ≡ false
    → has_repeat (in_slot cl n keys) ≡ false
has_repeat-in_slot cl n [] h = refl
has_repeat-in_slot cl n (k ∷ keys) h =
    ground (arith, contains-in_slot cl n keys k, has_repeat-in_slot cl n keys)

is_map-collect :
    (cl : Cluster) (keys : List String) (slots : Dict ℕ (List String))
    → is_map slots ≡ true
    → is_map (collect cl keys slots) ≡ true
unfolding collect
is_map-collect cl [] slots h = h
is_map-collect cl (key ∷ keys) slots h =
    is_map-collect cl keys (add_to (cl.slot key) key slots) (added (cl.slot key))
  where
    added : (o : Option ℕ) → is_map (add_to o key slots) ≡ true
    added none = h
    added (some n) = is_map-insert n _ slots h

-- Ranging over a map yields each of its entries once.
pub record Ranges (yields : Dict ℕ (List String) → List (ℕ × List String)) : Type 0 where
  pub is_map-yields : (m : Dict ℕ (List String)) → is_map m ≡ true → is_map (yields m) ≡ true
  pub lookup-yields :
      (m : Dict ℕ (List String)) (n : ℕ) → is_map m ≡ true → lookup n (yields m) ≡ lookup n m

module _ {S : Type 0} (tag : List String → S → Option Error × S)
    (yields : Dict ℕ (List String) → List (ℕ × List String)) (R : Ranges yields) (D : DataUtil)
    (T : Tools.IsLawful D) (cl : Cluster) where
  abbrev pub AllBySlot : List String → List (ℕ × List String) → Type 0
  AllBySlot keys groups =
      (n : ℕ)
      → (has_repeat (keys_of (lookup n groups)) ≡ false)
        × ((key : String)
            → contains (keys_of (lookup n groups)) key
              ≡ (contains keys key && is_slot n (cl.slot key)))

  AllBySlot-of_in_slot :
      (keys : List String) (groups : List (ℕ × List String))
      → ((n : ℕ) → keys_of (lookup n groups) ≡ in_slot cl n (D.distinct keys))
      → AllBySlot keys groups
  AllBySlot-of_in_slot keys groups h n = rw (h n) (
    has_repeat-in_slot cl n (D.distinct keys) (T.has_repeat-distinct keys),
    λ key. contains-in_slot cl n (D.distinct keys) key ∙ rw (T.contains-distinct keys key) refl,
  )

  no_keys : (ks : List String) → ltb 0 (length ks) ≡ false → ks ≡ []
  no_keys [] h = refl
  no_keys (k ∷ ks) h = absurd (ground arith)

  AllBySlot-yields :
      (keys : List String) → AllBySlot keys (yields (collect cl (D.distinct keys) []))
  AllBySlot-yields keys = AllBySlot-of_in_slot keys _ λ n.
      let m = collect cl (D.distinct keys) [] in
      ap keys_of (R.lookup-yields m n (is_map-collect cl (D.distinct keys) [] refl))
      ∙ (keys_of-collect cl (D.distinct keys) [] n ∙ rw lookup-nil refl)

  -- The loop over the groups, which Calls shows to be a deletion of each of them.
  pub exec_del_with_keys_cluster :
      (keys : List String) (s : S)
      → cl.exec (D.distinct keys) ≡ none
      → (groups : List (ℕ × List String)) × (exec_del_with_keys tag yields D (some cl) keys s
          ≡ (ok tt, tag_all tag yields groups s))
        × (is_map groups ≡ true)
        × AllBySlot keys groups
  unfolding exec_del_with_keys exec_del group_keys_by_slot
  exec_del_with_keys_cluster keys s h = elim (Bool-cases (ltb 0 (length (D.distinct keys)))) [
    | inl some_key ↦
        let m = collect cl (D.distinct keys) [] in
        let one = is_map-collect cl (D.distinct keys) [] refl in
        (yields m, ground (arith, some_key, h), R.is_map-yields m one, AllBySlot-yields keys)
    | inr no_key ↦
        let none_ = no_keys (D.distinct keys) no_key in
        (
          [],
          unfold tag_all in ground (arith, no_key),
          refl,
          AllBySlot-of_in_slot keys [] (λ n. rw (none_, lookup-nil) refl),
        )
  ]
