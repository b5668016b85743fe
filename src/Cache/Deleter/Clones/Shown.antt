-- ===== src/Cache/Deleter/Clones/Shown.antt =====
-- What a clone of a deleter deletes, whatever is done to the other clones.
use openim_project_template.Base.{
  ℕ, ◌<◌, String, ◌≡◌, ◌≢◌, refl, sym, ap, subst, ◌∙◌, nat_eq, ◌⊎◌, inl, inr, List, [], ◌∷◌, ◌++◌,
  length, Option, arith,
}
use openim_project_template.Base.Dict.{Dict}
use openim_project_template.Errors.{Error}
use openim_project_template.Tools.{DataUtil}
use openim_project_template.Cache.Slots.{Cluster, exec_del}
use openim_project_template.Cache.Deleter.{
  Heap, Slice, contents, append, update, nil, Deleter, new_batch_deleter_redis, clone, add_keys,
  chain_exec_del,
}
use openim_project_template.Cache.Deleter.Slices.{
  IsSlice, contents-append, contents-append_other, IsSlice-append, IsSlice-append_other,
  array-append, append_empty, next-append,
}
use openim_project_template.Cache.Deleter.Clones.{
  Call, clones, adds, Program, begun, call, calls, Added, expects, expected,
}

-- Two slices of different arrays, or of none.
abbrev Apart : Slice → Slice → Type 0
Apart s t = (s.array ≢ t.array) ⊎ ((s.array ≡ 0) × (t.array ≡ 0))

-- No two clones share an array with room, and each shows the keys that were added to it.
record Shows (f : Added) (p : Program) : Type 0 where
  started : 0 < p.heap.next
  blank : p.heap.arrays 0 ≡ []
  slices : (i : ℕ) → IsSlice p.heap (p.vars i).keys
  apart : (i j : ℕ) → i ≢ j → Apart (p.vars i).keys (p.vars j).keys
  shows : (i : ℕ) → contents p.heap (p.vars i).keys ≡ f i

update-at : {A : Type 0} (v : ℕ → A) (i : ℕ) (a : A) → update v i a i ≡ a
update-at v i a = ground arith

update-other : {A : Type 0} (v : ℕ → A) (i : ℕ) (a : A) (j : ℕ) → j ≢ i → update v i a j ≡ v j
update-other v i a j n = ground (arith, n)

-- What holds of a new value and of the old values of the other variables.
update-elim :
    {A : Type 0} (P : ℕ → A → Type 0) (v : ℕ → A) (i : ℕ) (a : A)
    → P i a
    → ((j : ℕ) → j ≢ i → P j (v j))
    → (j : ℕ) → P j (update v i a j)
update-elim P v i a here other j = elim (nat_eq.dec j i) [
  | yes e ↦ rw e (subst (P i) (sym (update-at v i a)) here)
  | no n ↦ subst (P j) (sym (update-other v i a j n)) (other j n)
]

Apart-swap : (s t : Slice) → Apart s t → Apart t s
Apart-swap s t (inl n) = inl (λ e. n (sym e))
Apart-swap s t (inr (a, b)) = inr (b, a)

-- A new slice that is apart from the other ones.
Apart-update :
    (v : ℕ → Deleter) (i : ℕ) (d : Deleter)
    → ((j : ℕ) → j ≢ i → Apart d.keys (v j).keys)
    → ((j k : ℕ) → j ≢ k → Apart (v j).keys (v k).keys)
    → (j k : ℕ) → j ≢ k
    → Apart (update v i d j).keys (update v i d k).keys
Apart-update v i d new old j k =
    update-elim (λ j' a. j' ≢ k → Apart a.keys (update v i d k).keys) v i d
      (λ n.
        update-elim (λ k' b. i ≢ k' → Apart d.keys b.keys) v i d (λ m. absurd (m refl))
          (λ k' m _. new k' m) k n)
      (λ j' m n.
        update-elim (λ k' b. j' ≢ k' → Apart (v j').keys b.keys) v i d
          (λ _. Apart-swap d.keys (v j').keys (new j' m)) (λ k' _ n'. old j' k' n') k n)
      j

Shows-begun : Shows (λ _. []) begun
Shows-begun = record {
  started = omega arith;
  blank = refl;
  slices = λ i.
      unfold new_batch_deleter_redis clone in record { used = omega arith; fits = omega arith };
  apart = λ i j _. unfold new_batch_deleter_redis clone in inr (refl, refl);
  shows = λ i. unfold new_batch_deleter_redis clone in refl;
}

Apart-nil : {h : Heap} {t : Slice} → h.arrays 0 ≡ [] → IsSlice h t → Apart t nil
Apart-nil {t = t} blank v = elim (nat_eq.dec t.array 0) [ yes e ↦ inr (e, refl) | no n ↦ inl n ]

shows-update :
    (h : Heap) (v : ℕ → Deleter) (f : Added) (i : ℕ) (d : Deleter) (l : List String)
    → contents h d.keys ≡ l
    → ((j : ℕ) → j ≢ i → contents h (v j).keys ≡ f j)
    → (j : ℕ) → contents h (update v i d j).keys ≡ update f i l j
shows-update h v f i d l here other =
    update-elim (λ j e. contents h e.keys ≡ update f i l j) v i d (here ∙ sym (update-at f i l))
      (λ j n. other j n ∙ sym (update-other f i l j n))

module _ (spare : ℕ → List String) where
  Shows-clones :
      (f : Added) (p : Program) (i : ℕ)
      → Shows f p
      → Shows (expects (clones i) f) (call spare (clones i) p)
  unfolding call new_batch_deleter_redis clone
  Shows-clones f p i w = record {
    started = w.started;
    blank = w.blank;
    slices =
        update-elim (λ j d. IsSlice p.heap d.keys) p.vars i (record { keys = nil })
          (record { used = w.started; fits = omega arith }) (λ j _. w.slices j);
    apart =
        Apart-update p.vars i (record { keys = nil })
          (λ j _. Apart-swap (p.vars j).keys nil (Apart-nil w.blank (w.slices j))) w.apart;
    shows = shows-update p.heap p.vars f i (record { keys = nil }) [] refl (λ j _. w.shows j);
  }

  module _ (f : Added) (p : Program) (w : Shows f p) (i : ℕ) (xs : List String) where
    abbrev s : Slice
    s = (p.vars i).keys

    abbrev s' : Slice
    s' = (append spare s xs p.heap).0

    abbrev h' : Heap
    h' = (append spare s xs p.heap).1

    -- Another slice is apart from the one that `append` gives.
    Apart-append : (t : Slice) → IsSlice p.heap t → Apart s t → Apart s' t
    Apart-append t v apart = elim (array-append spare s xs p.heap (w.slices i)) [
      | inl same ↦ rw same apart
      | inr new ↦ inl (λ e. absurd (omega (arith, new, e, v.used)))
    ]

    shows_other : (t : Slice) → IsSlice p.heap t → Apart s t → contents h' t ≡ contents p.heap t
    shows_other t v apart = contents-append_other spare s xs p.heap (w.slices i) t v (elim apart [
      | inl n ↦ inl (λ e. n (sym e))
      | inr (a, b) ↦ inr (
          let e : length (p.heap.arrays t.array) ≡ 0 = rw (b, w.blank) refl in
          omega (arith, v.fits, e))
    ])

    Shows-adds : Shows (expects (adds i xs) f) (call spare (adds i xs) p)
    unfolding call add_keys
    Shows-adds = record {
      started = omega (arith, w.started, next-append spare s xs p.heap (w.slices i));
      blank = append_empty spare s xs p.heap (w.slices i) 0 w.started w.blank;
      slices =
          update-elim (λ j d. IsSlice h' d.keys) p.vars i (record { keys = s' })
            (IsSlice-append spare s xs p.heap (w.slices i))
            (λ j _.
              IsSlice-append_other spare s xs p.heap (w.slices i) (p.vars j).keys (w.slices j));
      apart =
          Apart-update p.vars i (record { keys = s' })
            (λ j n. Apart-append (p.vars j).keys (w.slices j) (w.apart i j (λ e. n (sym e))))
            w.apart;
      shows =
          shows-update h' p.vars f i (record { keys = s' }) (f i ++ xs)
            (contents-append spare s xs p.heap (w.slices i) ∙ ap (λ l. l ++ xs) (w.shows i))
            (λ j n.
              shows_other (p.vars j).keys (w.slices j) (w.apart i j (λ e. n (sym e))) ∙ w.shows j);
    }

  Shows-calls :
      (cs : List Call) (f : Added) (p : Program)
      → Shows f p
      → Shows (expected cs f) (calls spare cs p)
  unfolding expected calls
  Shows-calls [] f p w = w
  Shows-calls (clones i ∷ cs) f p w = Shows-calls cs _ _ (Shows-clones f p i w)
  Shows-calls (adds i xs ∷ cs) f p w = Shows-calls cs _ _ (Shows-adds f p w i xs)

  module _ {S : Type 0} (tag : List String → S → Option Error × S)
      (yields : Dict ℕ (List String) → List (ℕ × List String)) (D : DataUtil)
      (client : Option Cluster) where
    -- If keys are added only to clones of a deleter that NewBatchDeleterRedis made, in any order
    -- of the calls and of the clones, ChainExecDel of each clone deletes the distinct ones of
    -- the keys that were added to it since it was cloned.
    pub chain_exec_del-calls :
        (cs : List Call) (i : ℕ)
        → chain_exec_del tag yields D client
            (calls spare cs begun).heap
            ((calls spare cs begun).vars i)
          ≡ exec_del tag yields client (D.distinct (expected cs (λ _. []) i))
    unfolding chain_exec_del
    chain_exec_del-calls cs i =
        ap (λ l. exec_del tag yields client (D.distinct l))
          ((Shows-calls cs (λ _. []) begun Shows-begun).shows i)
