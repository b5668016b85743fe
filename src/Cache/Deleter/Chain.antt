-- ===== src/Cache/Deleter/Chain.antt =====
-- What a chain of calls on clones deletes, and where clones disturb one another.
use openim_project_template.Base.{
  ℕ, ◌+◌, ◌≤◌, String, ◌≡◌, ◌∙◌, ap, List, ◌++◌, length, Option, arith, inr, nat_eq,
}
use openim_project_template.Base.Dict.{Dict}
use openim_project_template.Errors.{Error}
use openim_project_template.Tools.{DataUtil}
use openim_project_template.Cache.Slots.{Cluster, exec_del}
use openim_project_template.Cache.Deleter.{
  Heap, contents, append, Deleter, clone, add_keys, chain_exec_del,
}
use openim_project_template.Cache.Deleter.Slices.{
  IsSlice, contents-append, contents-append_other, append_in_place,
}

module _ (spare : ℕ → List String) (h : Heap) (c : Deleter) (v : IsSlice h c.keys)
    (xs : List String) where
  -- The clone after `AddKeys`, and the heap.
  abbrev added : Deleter × Heap
  added = add_keys spare (clone c) xs h

  module _ {S : Type 0} (tag : List String → S → Option Error × S)
      (yields : Dict ℕ (List String) → List (ℕ × List String)) (D : DataUtil)
      (client : Option Cluster) where
    -- For a deleter whose slice lies within its array: a clone to which keys are added deletes
    -- the distinct ones of its old and new keys, and the deleter that it was cloned from deletes
    -- what it would have before.
    pub chain_exec_del-clone :
        (chain_exec_del tag yields D client added.1 added.0
          ≡ exec_del tag yields client (D.distinct (contents h c.keys ++ xs)))
        × (chain_exec_del tag yields D client added.1 c ≡ chain_exec_del tag yields D client h c)
    unfolding chain_exec_del add_keys clone
    chain_exec_del-clone = (
      ap (λ l. exec_del tag yields client (D.distinct l)) (contents-append spare c.keys xs h v),
      ap (λ l. exec_del tag yields client (D.distinct l))
          (contents-append_other spare c.keys xs h v c.keys v (inr (omega arith))),
    )

    -- For a deleter whose slice lies within its array: if the array has room for the keys that
    -- are added to a clone, and as many are then added to a second clone, the first deletes the
    -- keys of the second.
    pub chain_exec_del-second_clone :
        (ys : List String)
        → length xs ≡ length ys
        → c.keys.len + length xs ≤ length (h.arrays c.keys.array)
        → let second : Deleter × Heap = add_keys spare (clone c) ys added.1 in
          chain_exec_del tag yields D client second.1 added.0
          ≡ exec_del tag yields client (D.distinct (contents h c.keys ++ ys))
    unfolding chain_exec_del add_keys clone
    chain_exec_del-second_clone ys same room =
        let h' : Heap = (append spare c.keys xs h).1 in
        let (first, w, kept) = append_in_place spare c.keys xs h v room in
        let (second, _, _) = append_in_place spare c.keys ys h' w (omega arith) in
        let shared : (append spare c.keys xs h).0 ≡ (append spare c.keys ys h').0 =
          ground (arith, first, second) in
        let before = contents-append_other spare c.keys xs h v c.keys v (inr (omega arith)) in
        ap (λ l. exec_del tag yields client (D.distinct l))
          (ap (contents (append spare c.keys ys h').1) shared
            ∙ contents-append spare c.keys ys h' w
            ∙ ap (λ l. l ++ ys) before)
