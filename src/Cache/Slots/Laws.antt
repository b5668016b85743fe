-- ===== src/Cache/Slots/Laws.antt =====
-- How keys are grouped, and what a deletion does.
use openim_project_template.Base.{
  ℕ, String, ◌≡◌, ◌∙◌, sym, ltb, if◌then◌else◌, nat_eq, ◌==◌, Option, none, some, List, [], ◌∷◌,
  ◌++◌, length, ok, err, arith, Bool, false, string_eq, contains,
}
use mathlib.Core.List.{append-nil, append_assoc}
use openim_project_template.Base.Dict.{Dict, lookup, insert, lookup-insert, lookup-nil}
use openim_project_template.Errors.{Error, wrap_msg}
use openim_project_template.Tools
use openim_project_template.Tools.{DataUtil, has_repeat}
use openim_project_template.Cache.Slots.{
  Cluster, keys_of, add_to, collect, group_keys_by_slot, tag_all, exec_del, exec_del_with_keys,
}

abbrev pub is_slot : ℕ → Option ℕ → Bool
is_slot n none = false
is_slot n (some m) = n == m

-- The keys whose slot is `n`, in order.
abbrev pub in_slot : Cluster → ℕ → List String → List String
in_slot cl n [] = []
in_slot cl n (key ∷ keys) =
    let rest = in_slot cl n keys in if is_slot n (cl.slot key) then key ∷ rest else rest

keys_of-add_to :
    (o : Option ℕ) (key : String) (slots : Dict ℕ (List String)) (n : ℕ)
    → keys_of (lookup n (add_to o key slots))
      ≡ keys_of (lookup n slots) ++ (if is_slot n o then key ∷ [] else [])
keys_of-add_to none key slots n = sym (append-nil _)
keys_of-add_to (some m) key slots n =
    rw lookup-insert (ground (arith, append-nil (keys_of (lookup n slots))))

pub keys_of-collect :
    (cl : Cluster) (keys : List String) (slots : Dict ℕ (List String)) (n : ℕ)
    → keys_of (lookup n (collect cl keys slots)) ≡ keys_of (lookup n slots) ++ in_slot cl n keys
unfolding collect
keys_of-collect cl [] slots n = sym (append-nil _)
keys_of-collect cl (key ∷ keys) slots n =
    keys_of-collect cl keys (add_to (cl.slot key) key slots) n
    ∙ rw (keys_of-add_to, append_assoc) (ground arith)

-- In a cluster that answers, groupKeysBySlot groups the keys of each slot under it in their
-- order, and a key whose slot is not known is in no group.
pub group_keys_by_slot_lem :
    (cl : Cluster) (keys : List String)
    → cl.exec keys ≡ none
    → (slots : Dict ℕ (List String)) × (group_keys_by_slot (some cl) keys ≡ ok slots)
      × ((n : ℕ) → keys_of (lookup n slots) ≡ in_slot cl n keys)
unfolding group_keys_by_slot
group_keys_by_slot_lem cl keys h =
    (collect cl keys [], ground arith, λ n. keys_of-collect cl keys [] n ∙ rw lookup-nil)

module _ {S : Type 0} (tag : List String → S → Option Error × S)
    (yields : Dict ℕ (List String) → List (ℕ × List String))
    (one : (keys : List String) → yields (insert 0 keys []) ≡ (0, keys) ∷ []) (D : DataUtil)
    (T : Tools.IsLawful D) where
  -- With Distinct as documented and a map of one entry ranged over once, on a single server
  -- ExecDelWithKeys makes one deletion with the distinct keys, or none if there is no key, and
  -- answers no error.
  pub exec_del_with_keys_single :
      (keys : List String) (s : S)
      → (d : List String) × ((x : String) → contains d x ≡ contains keys x)
        × (has_repeat d ≡ false)
        × (exec_del_with_keys tag yields D none keys s
            ≡ (ok tt, if ltb 0 (length d) then (tag d s).1 else s))
  unfolding exec_del_with_keys exec_del group_keys_by_slot tag_all
  exec_del_with_keys_single keys s = (
    D.distinct keys,
    T.contains-distinct keys,
    T.has_repeat-distinct keys,
    ground (arith, one (D.distinct keys)),
  )

-- In a cluster, a pipeline that fails stops the deletion before any key is deleted, and its error
-- is answered.
exec_del_pipeline_fails :
    {S : Type 0} (tag : List String → S → Option Error × S)
    (yields : Dict ℕ (List String) → List (ℕ × List String)) (cl : Cluster) (key : String)
    (keys : List String) (e : Error) (s : S)
    → cl.exec (key ∷ keys) ≡ some e
    → exec_del tag yields (some cl) (key ∷ keys) s ≡ (err (wrap_msg e "get slot err"), s)
unfolding exec_del group_keys_by_slot
exec_del_pipeline_fails tag yields cl key keys e s h = ground arith
