-- ===== src/Cache/Fetch/Laws.antt =====
-- What `getCache` answers.
use openim_project_template.Base.{
  ℕ, String, ◌≡◌, ◌≢◌, refl, ◌⊎◌, inl, inr, Bool, true, Option, none, some, Res, ok, err, panics,
  arith, string_eq,
}
use openim_project_template.Errors.{wrap, wrap_msg}
use openim_project_template.Cache.Fetch.{Rocks, Codec, load, encode, written, finish, get_cache}

-- What the code relies on of rockscache, with its option StrongConsistency.
pub record IsLawful (R : Rocks) : Type 0 where
  -- A function that is called decides the answer.
  pub called :
      (key : String) (expire : ℕ) (r : Res String) (s : R.State)
      → (R.fetch key expire r s).0.called ≡ true
      → (R.fetch key expire r s).0.result ≡ r

module _ {T : Type 0} (K : Codec T) where
  finish_source :
      (show : ℕ → String) (key : String) (expire : ℕ) (w : Option T) (r : Res String) (t : T)
      → finish K show key expire w r ≡ ok t
      → (w ≡ some t) ⊎ ((v : String) × (v ≢ "") × (r ≡ ok v) × (K.unmarshal v ≡ ok t))
  finish_source show key expire w (err e) t h = cc
  finish_source show key expire w panics t h = cc
  finish_source show key expire (some u) (ok v) t h = inl (ground arith)
  finish_source show key expire none (ok v) t h = inr (v, ground arith, refl, ground arith)

  written_source :
      (c : Bool) (fn : Res T) (l : Res String) (t : T) → written K c fn l ≡ some t → fn ≡ ok t
  written_source true (ok u) (ok v) t h = ground arith
  written_source _ _ _ t h = cc

-- What `getCache` answers with the loader's answer: its value if that can be encoded, and its error,
-- or that of the encoding, wrapped.
module _ {T : Type 0} (K : Codec T) where
  abbrev marshalled : T → Res String → Res T
  marshalled t (ok v) = ok t
  marshalled t (err e) = err (wrap (wrap_msg e "marshal failed"))
  marshalled t panics = panics

  abbrev pub loaded : Res T → Res T
  loaded (ok t) = marshalled t (K.marshal t)
  loaded (err e) = err (wrap e)
  loaded panics = panics

  finish-called :
      (show : ℕ → String) (key : String) (expire : ℕ) (fn : Res T)
      → finish K show key expire (written K true fn (load K fn)) (load K fn) ≡ loaded fn
  unfolding load
  finish-called show key expire (err e) = refl
  finish-called show key expire panics = refl
  finish-called show key expire (ok t) = of_text (K.marshal t)
    where
      of_text :
          (r : Res String)
          → finish K show key expire (written K true (ok t) (encode K r)) (encode K r)
            ≡ marshalled t r
      of_text (ok v) = refl
      of_text (err e) = refl
      of_text panics = refl

module _ {T : Type 0} (K : Codec T) (R : Rocks) (L : IsLawful R) (show : ℕ → String)
    (key : String) where
  abbrev get : ℕ → Res T → R.State → Res T × R.State
  get = get_cache K R show key

  -- Over a cache that keeps its laws, a value that getCache answers is the loader's, or what a
  -- text of the cache that is not empty decodes to.
  pub get_cache_source :
      (expire : ℕ) (fn : Res T) (t : T) (s : R.State)
      → (get expire fn s).0 ≡ ok t
      → (fn ≡ ok t)
        ⊎ ((v : String) × (v ≢ "")
            × ((R.fetch key expire (load K fn) s).0.result ≡ ok v)
            × (K.unmarshal v ≡ ok t))
  unfolding get_cache
  get_cache_source expire fn t s h = elim (finish_source K show key expire _ _ t h) [
    | inl w ↦ inl (written_source K _ fn _ t w)
    | inr decoded ↦ inr decoded
  ]

  -- If the loader is called, its answer decides.
  pub get_cache_called :
      (expire : ℕ) (fn : Res T) (s : R.State)
      → (R.fetch key expire (load K fn) s).0.called ≡ true
      → (get expire fn s).0 ≡ loaded K fn
  unfolding get_cache
  get_cache_called expire fn s h =
      rw (h, L.called key expire (load K fn) s h) (finish-called K show key expire fn)
