-- ===== src/Cache/Fetch/Batch.antt =====
-- What `batchGetCache` answers, against a relation that collects the values key by key.
use openim_project_template.Base.{
  ℕ, String, ◌≡◌, refl, ◌↔◌, Bool, true, false, List, [], ◌∷◌, ◌++◌, Res, ok, err, arith, Res-cases,
  Bool-cases, inl, inr, ap, sym,
}
use openim_project_template.Errors.{Error, wrap}
use openim_project_template.Cache.Fetch.{Rocks, Codec, get_cache, batch_get_cache}

module _ {T Key : Type 0} (K : Codec T) (R : Rocks) (show : ℕ → String) (not_found : Error → Bool)
    (expire : ℕ) (key_fn : Key → String) (fns : Key → Res T) where
  abbrev get_one : Key → R.State → Res T × R.State
  get_one key = get_cache K R show (key_fn key) expire (fns key)

  abbrev get_batch : List Key → R.State → Res (List T) × R.State
  get_batch = batch_get_cache K R show not_found expire key_fn fns

  -- The values of the keys in order, without the keys whose record is not found.
  pub data Collects : List Key → R.State → List T → R.State → Type 0 where
    all_done : {s : R.State} → Collects [] s [] s
    kept :
        {key : Key} {keys : List Key} {s s' s'' : R.State} {t : T} {ts : List T}
        → get_one key s ≡ (ok t, s')
        → Collects keys s' ts s''
        → Collects (key ∷ keys) s (t ∷ ts) s''
    skipped :
        {key : Key} {keys : List Key} {s s' s'' : R.State} {e : Error} {ts : List T}
        → get_one key s ≡ (err e, s')
        → not_found e ≡ true
        → Collects keys s' ts s''
        → Collects (key ∷ keys) s ts s''

  batch-of_Collects :
      {keys : List Key} {s s' : R.State} {ts : List T}
      → Collects keys s ts s'
      → get_batch keys s ≡ (ok ts, s')
  unfolding batch_get_cache
  batch-of_Collects all_done = refl
  batch-of_Collects (kept got c) = ground (arith, batch-of_Collects c)
  batch-of_Collects (skipped got gone c) = ground (arith, batch-of_Collects c)

  Collects-of_batch :
      (keys : List Key) (s s' : R.State) (ts : List T)
      → get_batch keys s ≡ (ok ts, s')
      → Collects keys s ts s'
  unfolding batch_get_cache
  Collects-of_batch [] s s' ts h =
      let none_left : ts ≡ [] = ground arith in
      let same : s' ≡ s = ap (λ p. p.1) (sym h) in rw (none_left, same) all_done
  Collects-of_batch (key ∷ keys) s s' ts h =
      let got = get_one key s in
      let rest = get_batch keys got.1 in
      elim (Res-cases got.0) [
        | inl (t, g) ↦ elim (Res-cases rest.0) [
          | inl (us, r) ↦
              let more : ts ≡ t ∷ us = ground (arith, g, r) in
              rw more (
                kept {s' = got.1} (λ i. (g i, got.1))
                  (Collects-of_batch keys got.1 s' us (ground (arith, g, r))))
          | inr (inl (e, r)) ↦ absurd (ground (arith, g, r))
          | inr (inr r) ↦ absurd (ground (arith, g, r))
        ]
        | inr (inl (e, g)) ↦ elim (Bool-cases (not_found e)) [
          | inl gone ↦
              skipped {s' = got.1} (λ i. (g i, got.1)) gone
                (Collects-of_batch keys got.1 s' ts (ground (arith, g, gone)))
          | inr other ↦ absurd (ground (arith, g, other))
        ]
        | inr (inr g) ↦ absurd (ground (arith, g))
      ]

  -- batchGetCache answers values exactly as the keys, one after the other, have them, without
  -- those whose record is not found.
  pub batch_get_cache-ok_iff :
      (keys : List Key) (s s' : R.State) (ts : List T)
      → (get_batch keys s ≡ (ok ts, s')) ↔ Collects keys s ts s'
  batch_get_cache-ok_iff keys s s' ts = (Collects-of_batch keys s s' ts, batch-of_Collects)

  -- Where the values of some keys are collected, and the key after them meets an error that is
  -- not "record not found", batchGetCache answers that error, wrapped, and the keys after it are
  -- not fetched.
  pub batch_get_cache_fails :
      {keys : List Key} {s s' s'' : R.State} {ts : List T} (key : Key) (rest : List Key) (e : Error)
      → Collects keys s ts s'
      → get_one key s' ≡ (err e, s'')
      → not_found e ≡ false
      → get_batch (keys ++ key ∷ rest) s ≡ (err (wrap e), s'')
  unfolding batch_get_cache
  batch_get_cache_fails key rest e all_done got other = ground arith
  batch_get_cache_fails key rest e (kept got c) failed other =
      ground (arith, batch_get_cache_fails key rest e c failed other)
  batch_get_cache_fails key rest e (skipped got gone c) failed other =
      ground (arith, batch_get_cache_fails key rest e c failed other)
