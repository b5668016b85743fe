-- ===== src/Cache/Fetch.antt =====
-- The read-through cache, `getCache` and `batchGetCache`. The client of github.com/dtm-labs/rockscache
-- is the record `Rocks`; the package encoding/json is the record `Codec`.
pub mod Laws
pub mod Batch
use openim_project_template.Base.{
  ℕ, String, ◌<>◌, ◌==◌, string_eq, if◌then◌else◌, Bool, true, false, Option, none, some, List, [],
  ◌∷◌, Res, ok, err, panics, Act,
}
use openim_project_template.Errors.{Error, coded, wrap, wrap_msg, err_record_not_found}

-- What `Fetch2` answers, and whether it called the function that it was given.
pub record Fetched : Type 0 where
  pub called : Bool
  pub result : Res String

pub record Rocks : Type 1 where
  pub State : Type 0
  -- `Fetch2(ctx, key, expire, fn)`; the argument of type `Res String` is what `fn` would answer.
  pub fetch : String → ℕ → Res String → State → Fetched × State

pub record Codec (T : Type 0) : Type 0 where
  -- `json.Marshal(t)`, as a text
  pub marshal : T → Res String
  -- `json.Unmarshal([]byte(v), &t)`
  pub unmarshal : String → Res T

module _ {T : Type 0} (K : Codec T) where
  abbrev encode : Res String → Res String
  encode (ok bs) = ok bs
  encode (err e) = err (wrap_msg e "marshal failed")
  encode panics = panics

  -- The function that is handed to `Fetch2`.
  unfoldable pub load : Res T → Res String
  load (ok t) = encode (K.marshal t)
  load (err e) = err e
  load panics = panics

  -- The variables `t` and `write` after the call: `some t` if `write` is set.
  abbrev written : Bool → Res T → Res String → Option T
  written true (ok t) (ok bs) = some t
  written _ _ _ = none

  abbrev expired_text : (ℕ → String) → String → String → ℕ → String
  expired_text show key v expire =
      "cache json.Unmarshal failed, key:" <> key <> ", value:" <> v <> ", expire:" <> show expire

  abbrev decode : String → Res T → Res T
  decode info (ok t) = ok t
  decode info (err e) = err (wrap_msg e info)
  decode info panics = panics

  abbrev finish : (ℕ → String) → String → ℕ → Option T → Res String → Res T
  finish show key expire w (err e) = err (wrap e)
  finish show key expire w panics = panics
  finish show key expire (some t) (ok v) = ok t
  finish show key expire none (ok v) =
      if v == ""
      then err (coded err_record_not_found "cache is not found")
      else decode (expired_text show key v expire) (K.unmarshal v)

  -- `getCache`; `show` prints a `time.Duration`, and `fn` is what the loader answers.
  unfoldable pub get_cache : (R : Rocks) → (ℕ → String) → String → ℕ → Res T → Act R.State T
  unfolding load
  get_cache R show key expire fn s =
      let f = R.fetch key expire (load fn) s in
      (finish show key expire (written f.0.called fn (load fn)) f.0.result, f.1)

module _ {T Key : Type 0} (K : Codec T) (R : Rocks) (show : ℕ → String) (not_found : Error → Bool)
    (expire : ℕ) (key_fn : Key → String) (fns : Key → Res T) where
  -- The body of the loop, on the value or the error of `getCache`, given what the other rounds
  -- answer. `not_found` is `errs.ErrRecordNotFound.Is(specialerror.ErrCode(errs.Unwrap(err)))`.
  abbrev keep : T → Res (List T) → Res (List T)
  keep t (ok ts) = ok (t ∷ ts)
  keep t (err e) = err e
  keep t panics = panics

  -- `batchGetCache`; of no keys the loop answers the empty list, as the early return does.
  unfoldable pub batch_get_cache : List Key → Act R.State (List T)
  batch_get_cache [] s = (ok [], s)
  batch_get_cache (key ∷ keys) s =
      let got = get_cache K R show (key_fn key) expire (fns key) s in
      let rest = batch_get_cache keys got.1 in
      elim got.0 [
        | ok t ↦ (keep t rest.0, rest.1)
        | err e ↦ (if not_found e then rest else (err (wrap e), got.1))
        | panics ↦ (panics, got.1)
      ]
