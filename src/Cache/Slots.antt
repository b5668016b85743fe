-- ===== src/Cache/Slots.antt =====
-- Deleting keys from the cache, `groupKeysBySlot`, `execDel` and `ExecDelWithKeys`. The client of
-- a Redis cluster is the record `Cluster`; a client of a single server is `none`.
pub mod Laws
pub mod Deletion
pub mod Calls
use openim_project_template.Base.{
  ℕ, String, ltb, if◌then◌else◌, nat_eq, Option, none, some, List, [], ◌∷◌, ◌++◌, length, Res, ok,
  err, panics, Act,
}
use openim_project_template.Base.Dict.{Dict, lookup, insert}
use openim_project_template.Errors.{Error, wrap_msg}
use openim_project_template.Tools.{DataUtil}

pub record Cluster : Type 0 where
  -- `pipe.Exec(ctx)` of the pipeline that holds `ClusterKeySlot` of each key
  pub exec : List String → Option Error
  -- the command's `Result()`: the slot, or an error
  pub slot : String → Option ℕ

-- `slots[slot]`, nil if there is none
abbrev pub keys_of : Option (List String) → List String
keys_of none = []
keys_of (some keys) = keys

abbrev pub add_to : Option ℕ → String → Dict ℕ (List String) → Dict ℕ (List String)
add_to none key slots = slots
add_to (some n) key slots = insert n (keys_of (lookup n slots) ++ key ∷ []) slots

-- The loop over the commands.
unfoldable pub collect : Cluster → List String → Dict ℕ (List String) → Dict ℕ (List String)
collect cl [] slots = slots
collect cl (key ∷ keys) slots = collect cl keys (add_to (cl.slot key) key slots)

abbrev in_cluster : Cluster → List String → Option Error → Res (Dict ℕ (List String))
in_cluster cl keys (some e) = err (wrap_msg e "get slot err")
in_cluster cl keys none = ok (collect cl keys [])

-- `groupKeysBySlot`
unfoldable pub group_keys_by_slot : Option Cluster → List String → Res (Dict ℕ (List String))
group_keys_by_slot none keys = ok (insert 0 keys [])
group_keys_by_slot (some cl) keys = in_cluster cl keys (cl.exec keys)

-- `tag` is `TagAsDeletedBatch2` of rockscache, over any state; `yields` gives the entries of a map
-- in the order in which it is ranged over.
module _ {S : Type 0} (tag : List String → S → Option Error × S)
    (yields : Dict ℕ (List String) → List (ℕ × List String)) where
  -- The loop over the slots: an error of a deletion is logged, and the loop goes on.
  unfoldable pub tag_all : List (ℕ × List String) → S → S
  tag_all [] s = s
  tag_all ((n, keys) ∷ slots) s = tag_all slots (tag keys s).1

  abbrev tag_groups : Res (Dict ℕ (List String)) → Act S (Unit {0})
  tag_groups (ok slots) s = (ok tt, tag_all (yields slots) s)
  tag_groups (err e) s = (err e, s)
  tag_groups panics s = (panics, s)

  -- `execDel`
  unfoldable pub exec_del : Option Cluster → List String → Act S (Unit {0})
  exec_del client keys s =
      if ltb 0 (length keys) then tag_groups (group_keys_by_slot client keys) s else (ok tt, s)

  -- `ExecDelWithKeys`
  unfoldable pub exec_del_with_keys : DataUtil → Option Cluster → List String → Act S (Unit {0})
  exec_del_with_keys D client keys = exec_del client (D.distinct keys)
