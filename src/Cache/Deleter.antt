-- ===== src/Cache/Deleter.antt =====
-- `BatchDeleterRedis`: `AddKeys`, `Clone` and `ChainExecDel`. A slice is an array and a length, and
-- `append` writes into the array where it has room: clones share their array.
pub mod Slices
pub mod Chain
pub mod Clones
use openim_project_template.Base.{
  ℕ, zero, suc, ◌+◌, ◌-◌, String, ◌==◌, nat_eq, leb, if◌then◌else◌, List, [], ◌∷◌, ◌++◌, length,
  Act, Option, take,
}
use openim_project_template.Base.Dict.{Dict}
use openim_project_template.Errors.{Error}
use openim_project_template.Tools.{DataUtil}
use openim_project_template.Cache.Slots.{Cluster, exec_del}

-- The arrays that slices of texts point into, by number; those from `next` on are not in use.
pub record Heap : Type 0 where
  pub arrays : ℕ → List String
  pub next : ℕ

-- A slice that begins at the start of its array, which holds `capacity` texts.
pub record Slice : Type 0 where
  pub array : ℕ
  pub len : ℕ

abbrev pub contents : Heap → Slice → List String
contents h s = take s.len (h.arrays s.array)

-- The struct `BatchDeleterRedis`, by its field `keys`; its other fields do not change.
pub record Deleter : Type 0 where
  pub keys : Slice

-- The slice nil, which has no array; 0 stands for it.
abbrev pub nil : Slice
nil = record { array = 0; len = 0 }

-- `NewBatchDeleterRedis`
unfoldable pub new_batch_deleter_redis : Deleter
new_batch_deleter_redis = record { keys = nil }

-- `Clone`
unfoldable pub clone : Deleter → Deleter
clone c = record { keys = c.keys }

abbrev pub put : List String → List String → List String
put [] a = a
put (v ∷ vs) [] = []
put (v ∷ vs) (x ∷ a) = v ∷ put vs a

-- The array with texts written from an index on.
abbrev pub overwrite : ℕ → List String → List String → List String
overwrite zero vs a = put vs a
overwrite (suc n) vs [] = []
overwrite (suc n) vs (x ∷ a) = x ∷ overwrite n vs a

abbrev pub update : {A : Type 0} → (ℕ → A) → ℕ → A → ℕ → A
update f p a q = if q == p then a else f q

-- `append(s, vs...)`. A new array has room for the texts that `spare` gives behind them, which is
-- the choice of Go's run time.
module _ (spare : ℕ → List String) where
  abbrev in_place : Slice → List String → Heap → Slice × Heap
  in_place s vs h = (
    record s { len = s.len + length vs },
    record h { arrays = update h.arrays s.array (overwrite s.len vs (h.arrays s.array)) },
  )

  abbrev moved : Slice → List String → Heap → Slice × Heap
  moved s vs h =
      let a = contents h s ++ vs ++ spare (s.len + length vs) in
      (
        record { array = h.next; len = s.len + length vs },
        record { arrays = update h.arrays h.next a; next = h.next + 1 },
      )

  unfoldable pub append : Slice → List String → Heap → Slice × Heap
  append s vs h =
      if leb (s.len + length vs) (length (h.arrays s.array)) then in_place s vs h else moved s vs h

  -- `AddKeys`
  unfoldable pub add_keys : Deleter → List String → Heap → Deleter × Heap
  add_keys c keys h = (record c { keys = (append c.keys keys h).0 }, (append c.keys keys h).1)

-- `ChainExecDel`
unfoldable pub chain_exec_del :
    {S : Type 0}
    → (List String → S → Option Error × S)
    → (Dict ℕ (List String) → List (ℕ × List String))
    → DataUtil
    → Option Cluster
    → Heap
    → Deleter
    → Act S (Unit {0})
chain_exec_del tag yields D client h c = exec_del tag yields client (D.distinct (contents h c.keys))
