-- ===== src/Tests/Caches.antt =====
-- The cache: fetching, deleting, and deleters that are cloned.
use openim_project_template.Base.{
  ℕ, String, ◌≡◌, ◌↔◌, refl, ◌==◌, ◌++◌, true, false, Bool, Option, none, some, List, [], ◌∷◌, Res,
  ok, err, string_eq, nat_eq, arith, if◌then◌else◌,
}
use openim_project_template.Base.Dict.{Dict, lookup, insert}
use openim_project_template.Errors.{Error, new, wrap, coded, err_record_not_found}
use openim_project_template.Tools.Reference.{reference, reference-IsLawful}
use openim_project_template.Cache.Fetch.{get_cache, batch_get_cache}
use openim_project_template.Cache.Fetch.Batch.{Collects, batch_get_cache-ok_iff}
use openim_project_template.Cache.Slots.{
  group_keys_by_slot, collect, Cluster, exec_del, tag_all, exec_del_with_keys,
}
use openim_project_template.Cache.Slots.Deletion.{Ranges}
use openim_project_template.Cache.Slots.Calls.{recording, Deletes, exec_del_with_keys_calls}
use openim_project_template.Cache.Deleter.{Heap, Deleter, clone, add_keys, chain_exec_del}
use openim_project_template.Cache.Deleter.Slices.{IsSlice}
use openim_project_template.Cache.Deleter.Chain.{chain_exec_del-second_clone}
use openim_project_template.Cache.Deleter.Clones.{Call, clones, adds, begun, calls, expected}
use openim_project_template.Cache.Deleter.Clones.Shown.{chain_exec_del-calls}
use openim_project_template.Cache.Fetch.Laws.{loaded}
use openim_project_template.Cache.Coherence.{get_cache-exec_del_with_keys}
use openim_project_template.Tests.Data.{
  forget, forget-Deletes, memory_cache, memory_cache-IsLawful, bool_codec,
}

abbrev show : ℕ → String
show n = "1h"

-- The loaders of a batch: one finds its record, one does not, and one fails.
abbrev loader : String → Res Bool
loader key =
    if key == "t"
    then ok true
    else if key == "gone"
    then err (coded err_record_not_found "gone")
    else err (new "timeout")

abbrev is_not_found : Error → Bool
is_not_found (wrap (coded err_record_not_found m)) = true
is_not_found _ = false

abbrev batch : List String → Dict String String → Res (List Bool) × Dict String String
batch = batch_get_cache bool_codec memory_cache show is_not_found 3 (λ k. k) loader

abbrev Collected : List String → Dict String String → List Bool → Dict String String → Type 0
Collected = Collects bool_codec memory_cache show is_not_found 3 (λ k. k) loader

batch_of_two : batch ("gone" ∷ "t" ∷ []) [] ≡ (ok (true ∷ []), ("t", "true") ∷ [])
unfolding batch_get_cache get_cache lookup insert string_eq
batch_of_two = refl

two-Collected : Collected ("gone" ∷ "t" ∷ []) [] (true ∷ []) (("t", "true") ∷ [])
two-Collected =
    (batch_get_cache-ok_iff bool_codec memory_cache show is_not_found 3 (λ k. k) loader
        ("gone" ∷ "t" ∷ []) [] (("t", "true") ∷ []) (true ∷ [])).0
      batch_of_two

batch_get_cache-ok_iff_example :
    (batch ("gone" ∷ "t" ∷ []) [] ≡ (ok (true ∷ []), ("t", "true") ∷ []))
    ↔ Collected ("gone" ∷ "t" ∷ []) [] (true ∷ []) (("t", "true") ∷ [])
batch_get_cache-ok_iff_example =
    batch_get_cache-ok_iff bool_codec memory_cache show is_not_found 3 (λ k. k) loader
      ("gone" ∷ "t" ∷ []) [] (("t", "true") ∷ []) (true ∷ [])

-- Two slots, by a key of its own each; a third key has no slot.
abbrev cluster : Cluster
cluster = record {
  exec = λ keys. none;
  slot = λ k. if k == "x" then some 7 else if k == "y" then some 9 else none;
}

-- The calls that delete, in order.
abbrev tag : List String → List (List String) → Option Error × List (List String)
tag keys calls = (none, calls ++ keys ∷ [])

abbrev in_order : Dict ℕ (List String) → List (ℕ × List String)
in_order m = m

-- One array of four places, of which a deleter uses the first.
abbrev heap : Heap
heap = record { arrays = λ p. "k0" ∷ "" ∷ "" ∷ "" ∷ []; next = 1 }

abbrev deleter : Deleter
deleter = record { keys = record { array = 0; len = 1 } }

deleter-IsSlice : IsSlice heap deleter.keys
deleter-IsSlice = record { used = omega arith; fits = omega arith }

abbrev spare : ℕ → List String
spare n = []

abbrev first_clone : Deleter × Heap
first_clone = add_keys spare (clone deleter) ("k1" ∷ []) heap

-- Two clones in turn.
abbrev turns : List Call
turns = adds 0 ("k1" ∷ []) ∷ clones 1 ∷ adds 1 ("k2" ∷ []) ∷ adds 0 ("k3" ∷ []) ∷ []

chain_exec_del-calls_example :
    chain_exec_del tag in_order reference none
      (calls spare turns begun).heap
      ((calls spare turns begun).vars 0)
    ≡ exec_del tag in_order none (reference.distinct (expected turns (λ _. []) 0))
chain_exec_del-calls_example = chain_exec_del-calls spare tag in_order reference none turns 0

keys_of_first : expected turns (λ _. []) 0 ≡ "k1" ∷ "k3" ∷ []
unfolding expected nat_eq
keys_of_first = refl

chain_exec_del-second_clone_example :
    chain_exec_del tag in_order reference none
      (add_keys spare (clone deleter) ("k2" ∷ []) first_clone.1).1
      first_clone.0
    ≡ exec_del tag in_order none (reference.distinct ("k0" ∷ "k2" ∷ []))
chain_exec_del-second_clone_example =
    chain_exec_del-second_clone spare heap deleter deleter-IsSlice ("k1" ∷ []) tag in_order
      reference none ("k2" ∷ []) refl (omega arith)

abbrev in_order_ranges : Ranges in_order
in_order_ranges = record { is_map-yields = λ m h. h; lookup-yields = λ m n h. refl }

-- Two slots, one with two keys, and a key whose slot is not known; each deletion fails.
abbrev two_slots : Cluster
two_slots = record {
  exec = λ keys. none;
  slot = λ key. if key == "?" then none else if key == "b" then some 1 else some 0;
}

abbrev failing : List String → Option Error
failing keys = some (new "refused")

two_calls :
    exec_del_with_keys
      (recording failing)
      in_order
      reference
      (some two_slots)
      ("a" ∷ "b" ∷ "?" ∷ "a" ∷ "c" ∷ [])
      []
    ≡ (ok tt, ("b" ∷ []) ∷ ("a" ∷ "c" ∷ []) ∷ [])
unfolding exec_del_with_keys exec_del group_keys_by_slot collect tag_all lookup insert string_eq
    nat_eq
two_calls = refl

exec_del_with_keys_calls_example :
    (calls : List (List String)) × (exec_del_with_keys
        (recording failing)
        in_order
        reference
        (some two_slots)
        ("a" ∷ "b" ∷ "?" ∷ "a" ∷ "c" ∷ [])
        []
      ≡ (ok tt, calls))
    × Deletes failing in_order in_order_ranges reference reference-IsLawful two_slots
        ("a" ∷ "b" ∷ "?" ∷ "a" ∷ "c" ∷ [])
        calls
exec_del_with_keys_calls_example =
    exec_del_with_keys_calls failing in_order in_order_ranges reference reference-IsLawful two_slots
      ("a" ∷ "b" ∷ "?" ∷ "a" ∷ "c" ∷ []) refl

get_cache-exec_del_with_keys_example :
    (get_cache bool_codec memory_cache show "x" 3
      (ok false)
      (exec_del_with_keys forget in_order reference
        (some cluster)
        ("x" ∷ "y" ∷ [])
        (("x", "true") ∷ [])).1).0
    ≡ loaded bool_codec (ok false)
get_cache-exec_del_with_keys_example =
    get_cache-exec_del_with_keys memory_cache forget forget-Deletes in_order in_order_ranges
      reference reference-IsLawful bool_codec show 3 memory_cache-IsLawful (some cluster)
      ("x" ∷ "y" ∷ []) "x" (ok false) (("x", "true") ∷ []) (refl, (7, unfold string_eq in refl))
      (λ ks u. refl) (unfold string_eq in refl)
