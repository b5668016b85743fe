-- ===== src/Cache/Deleter/Clones.antt =====
-- Deleters as they are meant to be used (pkg/common/storage/cache/redis/batch_handler.go): keys are
-- added only to clones of one that NewBatchDeleterRedis made.
pub mod Shown
use openim_project_template.Base.{
  ℕ, zero, ◌+◌, ◌≤◌, ◌<◌, String, ◌≡◌, ◌≢◌, refl, sym, ap, subst, ◌∙◌, ◌==◌, nat_eq, ◌⊎◌, inl, inr,
  if◌then◌else◌, List, [], ◌∷◌, ◌++◌, length, Option, arith,
}
use openim_project_template.Base.Dict.{Dict}
use openim_project_template.Errors.{Error}
use openim_project_template.Tools.{DataUtil}
use openim_project_template.Cache.Slots.{Cluster, exec_del}
use openim_project_template.Cache.Deleter.{
  Heap, Slice, contents, append, update, nil, Deleter, new_batch_deleter_redis, clone, add_keys,
  chain_exec_del,
}
use openim_project_template.Cache.Deleter.Slices.{
  IsSlice, contents-append, contents-append_other, IsSlice-append, IsSlice-append_other,
  array-append, append_empty, next-append,
}

-- A call of `Clone` on the first deleter, or of `AddKeys` on a clone, with the variable of the clone.
pub data Call : Type 0 where
  clones : ℕ → Call
  adds : ℕ → List String → Call

pub record Program : Type 0 where
  pub vars : ℕ → Deleter
  pub heap : Heap

abbrev pub begun : Program
begun = record {
  vars = λ _. clone new_batch_deleter_redis;
  heap = record { arrays = λ _. []; next = 1 };
}

module _ (spare : ℕ → List String) where
  unfoldable pub call : Call → Program → Program
  call (clones i) p = record p { vars = update p.vars i (clone new_batch_deleter_redis) }
  call (adds i xs) p = record {
    vars = update p.vars i (add_keys spare (p.vars i) xs p.heap).0;
    heap = (add_keys spare (p.vars i) xs p.heap).1;
  }

  unfoldable pub calls : List Call → Program → Program
  calls [] p = p
  calls (c ∷ cs) p = calls cs (call c p)

-- What is promised: each clone has the keys that were added to it, in order.
abbrev pub Added : Type 0
Added = ℕ → List String

abbrev pub expects : Call → Added → Added
expects (clones i) f = update f i []
expects (adds i xs) f = update f i (f i ++ xs)

unfoldable pub expected : List Call → Added → Added
expected [] f = f
expected (c ∷ cs) f = expected cs (expects c f)
