-- ===== src/Cache/Slots/Calls.antt =====
-- The calls of deletions that `ExecDelWithKeys` of
-- pkg/common/storage/cache/redis/batch_handler.go makes in a cluster.
use openim_project_template.Base.{
  ℕ, String, ◌≡◌, ◌∙◌, ap, nat_eq, ◌&&◌, Option, none, some, List, [], ◌∷◌, ok, arith, true, false,
  string_eq, contains, Bool-cases, Option-cases, inl, inr, Bool, ◌||◌, ◌++◌, map, All, sym, ◌≢◌,
}
use openim_project_template.Base.Dict.{Dict, lookup, is_map, has_key}
use openim_project_template.Errors.{Error}
use openim_project_template.Tools
use openim_project_template.Tools.{DataUtil, has_repeat}
use openim_project_template.Cache.Slots.{Cluster, keys_of, tag_all, exec_del_with_keys}
use openim_project_template.Cache.Slots.Laws.{is_slot}
use mathlib.Core.List.{append-nil, append_assoc}
use openim_project_template.Cache.Slots.Deletion.{Ranges, AllBySlot, exec_del_with_keys_cluster}

-- A cache that keeps the calls of its deletions, of which each may fail.
abbrev pub recording :
    (List String → Option Error)
    → List String
    → List (List String)
    → Option Error × List (List String)
recording fails keys calls = (fails keys, calls ++ keys ∷ [])

-- The key is in one of the calls.
abbrev pub is_deleted : String → List (List String) → Bool
is_deleted key [] = false
is_deleted key (call ∷ calls) = contains call key || is_deleted key calls

-- All keys of a call have one slot, none twice.
abbrev pub IsOfSlot : Cluster → List String → Type 0
IsOfSlot cl call =
    (has_repeat call ≡ false)
    × (n : ℕ) × ((key : String) → contains call key ≡ true → cl.slot key ≡ some n)

-- The keys whose slot is known.
abbrev pub is_known : Option ℕ → Bool
is_known none = false
is_known (some n) = true

-- No key is in two of the calls.
abbrev pub Apart : List (List String) → Type 0
Apart [] = Unit {0}
Apart (call ∷ calls) =
    ((key : String) → contains call key ≡ true → is_deleted key calls ≡ false) × Apart calls

-- What a group of a slot holds of the keys.
abbrev IsGroup : Cluster → List String → ℕ → List String → Type 0
IsGroup cl keys n group =
    (has_repeat group ≡ false)
    × ((key : String) → contains group key ≡ (contains keys key && is_slot n (cl.slot key)))

slot-of_is_slot : (n : ℕ) (o : Option ℕ) → is_slot n o ≡ true → o ≡ some n
slot-of_is_slot n none h = absurd (ground arith)
slot-of_is_slot n (some m) h = elim (nat_eq.dec n m) [
  | yes e ↦ ap some (sym e)
  | no other ↦ absurd (ground (arith, h, other))
]

first_entry :
    (j : ℕ) (group : List String) (groups : List (ℕ × List String))
    → keys_of (lookup j ((j, group) ∷ groups)) ≡ group
unfolding lookup
first_entry j group groups = ground arith

later_entry :
    (n j : ℕ) (group : List String) (groups : List (ℕ × List String))
    → n ≢ j
    → lookup n ((j, group) ∷ groups) ≡ lookup n groups
unfolding lookup
later_entry n j group groups other = ground (arith, other)

module _ (cl : Cluster) (keys : List String) where
  abbrev Groups : List (ℕ × List String) → Type 0
  Groups = All (λ g. IsGroup cl keys g.0 g.1)

  -- What holds of the entry that is looked up holds of each entry of a map.
  Groups-of_lookup :
      (groups : List (ℕ × List String))
      → is_map groups ≡ true
      → ((n : ℕ) → has_key n groups ≡ true → IsGroup cl keys n (keys_of (lookup n groups)))
      → Groups groups
  Groups-of_lookup [] h all = tt
  Groups-of_lookup ((j, group) ∷ groups) h all = (
    rw (first_entry j group groups) at (all j (ground arith)),
    Groups-of_lookup groups (ground (arith, h)) (λ n has. elim (nat_eq.dec n j) [
      | yes e ↦ absurd (ground (arith, h, has, e))
      | no other ↦ rw (later_entry n j group groups other) at (all n (ground (arith, has)))
    ]),
  )

  deleted-Groups :
      (groups : List (ℕ × List String)) (key : String)
      → Groups groups
      → is_deleted key (map (λ g. g.1) groups) ≡ true
      → (n : ℕ) × (cl.slot key ≡ some n) × (contains keys key ≡ true) × (has_key n groups ≡ true)
  deleted-Groups [] key all h = absurd (ground arith)
  deleted-Groups ((j, group) ∷ groups) key ((_, members), all) h =
      elim (Bool-cases (contains group key)) [
        | inl in_first ↦ (
          j,
          slot-of_is_slot j (cl.slot key) (ground (arith, members key, in_first)),
          ground (arith, members key, in_first),
          ground arith,
        )
        | inr not_first ↦
            let (n, slot, has, later) =
              deleted-Groups groups key all (ground (arith, h, not_first)) in
            (n, slot, has, ground (arith, later))
      ]

  deleted-lookup :
      (groups : List (ℕ × List String)) (n : ℕ) (key : String)
      → contains (keys_of (lookup n groups)) key ≡ true
      → is_deleted key (map (λ g. g.1) groups) ≡ true
  unfolding lookup
  deleted-lookup [] n key h = absurd (ground arith)
  deleted-lookup ((j, group) ∷ groups) n key h = elim (nat_eq.dec n j) [
    | yes e ↦ ground (arith, h, e)
    | no other ↦ ground (arith, deleted-lookup groups n key (ground (arith, h, other)))
  ]

  Apart-Groups :
      (groups : List (ℕ × List String))
      → is_map groups ≡ true
      → Groups groups
      → Apart (map (λ g. g.1) groups)
  Apart-Groups [] h all = tt
  Apart-Groups ((j, group) ∷ groups) h ((_, members), all) = (
    λ key first. elim (Bool-cases (is_deleted key (map (λ g. g.1) groups))) [
      | inr not_later ↦ not_later
      | inl later ↦
          let (n, slot, _, has) = deleted-Groups groups key all later in
          let here_ = slot-of_is_slot j (cl.slot key) (ground (arith, members key, first)) in
          let e : some n ≡ some j = sym slot ∙ here_ in absurd (ground (arith, e, has, h))
    ],
    Apart-Groups groups (ground (arith, h)) all,
  )

  IsOfSlot-Groups :
      (groups : List (ℕ × List String)) → Groups groups → All (IsOfSlot cl) (map (λ g. g.1) groups)
  IsOfSlot-Groups [] all = tt
  IsOfSlot-Groups ((j, group) ∷ groups) ((once, members), all) = (
    (once, j, λ key first. slot-of_is_slot j (cl.slot key) (ground (arith, members key, first))),
    IsOfSlot-Groups groups all,
  )

module _ (fails : List String → Option Error)
    (yields : Dict ℕ (List String) → List (ℕ × List String)) (R : Ranges yields) (D : DataUtil)
    (T : Tools.IsLawful D) (cl : Cluster) where
  tag_all-recording :
      (groups : List (ℕ × List String)) (calls : List (List String))
      → tag_all (recording fails) yields groups calls ≡ calls ++ map (λ g. g.1) groups
  unfolding tag_all
  tag_all-recording [] calls = sym (append-nil calls)
  tag_all-recording ((n, keys) ∷ groups) calls =
      tag_all-recording groups (calls ++ keys ∷ [])
      ∙ append_assoc calls (keys ∷ []) (map (λ g. g.1) groups)

  -- The calls delete the keys whose slot is known, one slot by one call.
  abbrev pub Deletes : List String → List (List String) → Type 0
  Deletes keys calls =
      ((key : String) → is_deleted key calls ≡ (contains keys key && is_known (cl.slot key)))
      × All (IsOfSlot cl) calls
      × Apart calls

  Deletes-groups :
      (keys : List String) (groups : List (ℕ × List String))
      → is_map groups ≡ true
      → AllBySlot (recording fails) yields R D T cl keys groups
      → Deletes keys (map (λ g. g.1) groups)
  Deletes-groups keys groups one all =
      let good = Groups-of_lookup cl keys groups one (λ n _. all n) in
      (
        λ key. elim (Bool-cases (is_deleted key (map (λ g. g.1) groups))) [
          | inl deleted ↦
              let (n, slot, has, _) = deleted-Groups cl keys groups key good deleted in
              ground (arith, deleted, has, slot)
          | inr kept ↦ elim (Option-cases (cl.slot key)) [
            | inl unknown ↦ ground (arith, kept, unknown)
            | inr (n, slot) ↦ elim (Bool-cases (contains keys key)) [
              | inl has ↦
                  let (_, members) = all n in
                  absurd (
                    ground (
                      arith,
                      kept,
                      deleted-lookup cl keys groups n key (members key ∙ ground (arith, has, slot)),
                    ))
              | inr other ↦ ground (arith, kept, other)
            ]
          ]
        ],
        IsOfSlot-Groups cl keys groups good,
        Apart-Groups cl keys groups one good,
      )

  -- With Distinct as documented, a map ranged over entry by entry, and a cluster that answers
  -- the slots, whichever of the deletions fail: ExecDelWithKeys answers no error, and its
  -- deletions are together of exactly those given keys whose slot is known. Each deletion has
  -- keys of one slot only, none twice, and no key is in two of them.
  pub exec_del_with_keys_calls :
      (keys : List String)
      → cl.exec (D.distinct keys) ≡ none
      → (calls : List (List String)) × (exec_del_with_keys
            (recording fails)
            yields
            D
            (some cl)
            keys
            []
          ≡ (ok tt, calls))
        × Deletes keys calls
  exec_del_with_keys_calls keys h =
      let (groups, run, one, all) =
        exec_del_with_keys_cluster (recording fails) yields R D T cl keys [] h in
      (
        map (λ g. g.1) groups,
        run ∙ ap (λ s. (ok tt, s)) (tag_all-recording groups []),
        Deletes-groups keys groups one all,
      )
