-- ===== src/Cache/Coherence.antt =====
-- Deletion and the read-through cache of pkg/common/storage/cache/redis/batch_handler.go together:
-- what `getCache` answers behind `ExecDelWithKeys`.
use openim_project_template.Base.{
  ℕ, String, ◌≡◌, refl, sym, ap, ◌∙◌, subst, ltb, nat_eq, string_eq, contains, true, Option, none,
  some, List, [], ◌∷◌, length, Res, arith,
}
use openim_project_template.Base.Dict.{Dict, lookup, insert}
use openim_project_template.Errors.{Error}
use openim_project_template.Tools
use openim_project_template.Tools.{DataUtil}
use openim_project_template.Cache.Slots.{
  Cluster, keys_of, group_keys_by_slot, tag_all, exec_del, exec_del_with_keys,
}
use openim_project_template.Cache.Slots.Deletion.{Ranges, exec_del_with_keys_cluster}
use openim_project_template.Cache.Fetch.{Rocks, Codec, load, get_cache}
use openim_project_template.Cache.Fetch.Laws.{IsLawful, loaded, get_cache_called}

-- The next fetch of the key calls the function that it is given.
abbrev pub IsGone : (R : Rocks) → String → R.State → Type 0
IsGone R key s = (expire : ℕ) (r : Res String) → (R.fetch key expire r s).0.called ≡ true

-- What the code relies on of `TagAsDeletedBatch2`, with the option StrongConsistency.
pub record Deletes (R : Rocks) (tag : List String → R.State → Option Error × R.State) : Type 0 where
  pub gone :
      (keys : List String) (key : String) (s : R.State)
      → contains keys key ≡ true
      → (tag keys s).0 ≡ none
      → IsGone R key (tag keys s).1
  pub stays_gone :
      (keys : List String) (key : String) (s : R.State)
      → IsGone R key s
      → IsGone R key (tag keys s).1

module _ (R : Rocks) (tag : List String → R.State → Option Error × R.State) (L : Deletes R tag)
    (yields : Dict ℕ (List String) → List (ℕ × List String)) where
  IsGone-tag_all :
      (groups : List (ℕ × List String)) (key : String) (s : R.State)
      → IsGone R key s
      → IsGone R key (tag_all tag yields groups s)
  unfolding tag_all
  IsGone-tag_all [] key s h = h
  IsGone-tag_all ((n, keys) ∷ groups) key s h =
      IsGone-tag_all groups key (tag keys s).1 (L.stays_gone keys key s h)

  IsGone-of_tag_all :
      (groups : List (ℕ × List String)) (n : ℕ) (key : String) (s : R.State)
      → ((keys : List String) (t : R.State) → (tag keys t).0 ≡ none)
      → contains (keys_of (lookup n groups)) key ≡ true
      → IsGone R key (tag_all tag yields groups s)
  unfolding tag_all lookup
  IsGone-of_tag_all [] n key s fine h = absurd (ground arith)
  IsGone-of_tag_all ((m, keys) ∷ groups) n key s fine h = elim (nat_eq.dec n m) [
    | yes e ↦
        IsGone-tag_all groups key (tag keys s).1
          (L.gone keys key s (ground (arith, h, e)) (fine keys s))
    | no other ↦ IsGone-of_tag_all groups n key (tag keys s).1 fine (ground (arith, h, other))
  ]

-- The client says which slot the key is in, as far as it is asked.
abbrev pub Reaches : Option Cluster → List String → String → Type 0
Reaches none keys key = Unit {0}
Reaches (some cl) keys key = (cl.exec keys ≡ none) × ((n : ℕ) × (cl.slot key ≡ some n))

some_key : (ks : List String) (key : String) → contains ks key ≡ true → ltb 0 (length ks) ≡ true
some_key [] key h = absurd (ground arith)
some_key (k ∷ ks) key h = ground arith

module _ (R : Rocks) (tag : List String → R.State → Option Error × R.State) (L : Deletes R tag)
    (yields : Dict ℕ (List String) → List (ℕ × List String)) (Y : Ranges yields) (D : DataUtil)
    (T : Tools.IsLawful D) where
  IsGone-exec_del :
      (client : Option Cluster) (keys : List String) (key : String) (s : R.State)
      → Reaches client (D.distinct keys) key
      → ((ks : List String) (t : R.State) → (tag ks t).0 ≡ none)
      → contains keys key ≡ true
      → IsGone R key (exec_del_with_keys tag yields D client keys s).1
  unfolding exec_del_with_keys exec_del group_keys_by_slot lookup insert
  IsGone-exec_del none keys key s _ fine h =
      let there : contains (D.distinct keys) key ≡ true = T.contains-distinct keys key ∙ h in
      let m : Dict ℕ (List String) = insert 0 (D.distinct keys) [] in
      let e : keys_of (lookup 0 (yields m)) ≡ D.distinct keys =
        ap keys_of (Y.lookup-yields m 0 refl) ∙ ground arith in
      rw (some_key (D.distinct keys) key there)
        (IsGone-of_tag_all R tag L yields (yields m) 0 key s fine (rw e there))
  IsGone-exec_del (some cl) keys key s (exec, (n, slot)) fine h =
      let (groups, run, _, all) = exec_del_with_keys_cluster tag yields Y D T cl keys s exec in
      let (_, members) = all n in
      let there : contains (keys_of (lookup n groups)) key ≡ true =
        members key ∙ ground (arith, h, slot) in
      subst (λ o. IsGone R key o.1) (sym run)
        (IsGone-of_tag_all R tag L yields groups n key s fine there)

  -- With rockscache and Distinct as documented, a map ranged over entry by entry, deletions that
  -- give no error, and a client that is no cluster or answers the slot of the key: behind
  -- ExecDelWithKeys of keys with that key, getCache answers with the value or the wrapped error
  -- of its loader, whatever the cache held before.
  pub get_cache-exec_del_with_keys :
      {A : Type 0} (K : Codec A) (show : ℕ → String) (expire : ℕ)
      → IsLawful R
      → (client : Option Cluster) (keys : List String) (key : String) (fn : Res A) (s : R.State)
      → Reaches client (D.distinct keys) key
      → ((ks : List String) (t : R.State) → (tag ks t).0 ≡ none)
      → contains keys key ≡ true
      → (get_cache K R show key expire fn (exec_del_with_keys tag yields D client keys s).1).0
        ≡ loaded K fn
  get_cache-exec_del_with_keys K show expire F client keys key fn s reaches fine h =
      get_cache_called K R F show key expire fn (exec_del_with_keys tag yields D client keys s).1
        (IsGone-exec_del client keys key s reaches fine h expire (load K fn))
