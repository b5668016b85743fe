-- ===== src/Cache/Deleter/Slices.antt =====
-- What `append` does to the slice that it is given and to others.
use openim_project_template.Base.{
  ℕ, zero, suc, ◌+◌, ◌≤◌, ◌<◌, String, ◌≡◌, ◌≢◌, refl, ap, nat_eq, leb, List, [], ◌∷◌, ◌++◌, length,
  length-append, take, arith, ◌⊎◌, Bool-cases, inl, inr,
}
use native.Mathlib.Nat.{zero-add, suc-add}
use openim_project_template.Cache.Deleter.{Heap, Slice, contents, put, overwrite, append}

length-put : (vs a : List String) → length (put vs a) ≡ length a
length-put [] a = refl
length-put (v ∷ vs) [] = refl
length-put (v ∷ vs) (x ∷ a) = ap suc (length-put vs a)

length-overwrite : (n : ℕ) (vs a : List String) → length (overwrite n vs a) ≡ length a
length-overwrite zero vs a = length-put vs a
length-overwrite (suc n) vs [] = refl
length-overwrite (suc n) vs (x ∷ a) = ap suc (length-overwrite n vs a)

take-put : (vs a : List String) → length vs ≤ length a → take (length vs) (put vs a) ≡ vs
take-put [] a h = refl
take-put (v ∷ vs) [] h = absurd (omega arith)
take-put (v ∷ vs) (x ∷ a) h = ap (λ (l : List String). v ∷ l) (take-put vs a (omega arith))

take-overwrite :
    (n : ℕ) (vs a : List String)
    → n + length vs ≤ length a
    → take (n + length vs) (overwrite n vs a) ≡ take n a ++ vs
take-overwrite zero vs a h = rw zero-add (take-put vs a (omega arith))
take-overwrite (suc n) vs [] h = absurd (omega arith)
take-overwrite (suc n) vs (x ∷ a) h =
    rw suc-add (ap (λ (l : List String). x ∷ l) (take-overwrite n vs a (omega arith)))

take-overwrite_below : (m n : ℕ) (vs a : List String) → m ≤ n → take m (overwrite n vs a) ≡ take m a
take-overwrite_below zero n vs a h = refl
take-overwrite_below (suc m) zero vs a h = absurd (omega arith)
take-overwrite_below (suc m) (suc n) vs [] h = refl
take-overwrite_below (suc m) (suc n) vs (x ∷ a) h =
    ap (λ (l : List String). x ∷ l) (take-overwrite_below m n vs a (omega arith))

take-append : (xs ys : List String) → take (length xs) (xs ++ ys) ≡ xs
take-append [] ys = refl
take-append (x ∷ xs) ys = ap (λ (l : List String). x ∷ l) (take-append xs ys)

length-take : (n : ℕ) (xs : List String) → n ≤ length xs → length (take n xs) ≡ n
length-take zero xs h = refl
length-take (suc n) [] h = absurd (omega arith)
length-take (suc n) (x ∷ xs) h = ap suc (length-take n xs (omega arith))

overwrite-nil : (n : ℕ) (vs : List String) → overwrite n vs [] ≡ []
overwrite-nil zero [] = refl
overwrite-nil zero (v ∷ vs) = refl
overwrite-nil (suc n) vs = refl

-- A slice lies in an array that is in use, and fits into it.
pub record IsSlice (h : Heap) (s : Slice) : Type 0 where
  pub used : s.array < h.next
  pub fits : s.len ≤ length (h.arrays s.array)

take_moved :
    (n : ℕ) (xs vs room : List String)
    → length xs ≡ n
    → take (n + length vs) (xs ++ vs ++ room) ≡ xs ++ vs
take_moved n xs vs room h =
    let e : n + length vs ≡ length (xs ++ vs) = omega (arith, length-append xs vs) in
    rw e (take-append (xs ++ vs) room)

module _ (spare : ℕ → List String) (s : Slice) (vs : List String) (h : Heap) (v : IsSlice h s) where
  abbrev a : List String
  a = h.arrays s.array

  -- `append` gives a slice of the old contents and the new texts.
  pub contents-append :
      contents (append spare s vs h).1 (append spare s vs h).0 ≡ contents h s ++ vs
  unfolding append
  contents-append = elim (Bool-cases (leb (s.len + length vs) (length a))) [
    | inl room ↦ rw room (ground (arith, take-overwrite s.len vs a))
    | inr full ↦ rw full (
        ground (
          arith,
          take_moved s.len (take s.len a) vs (spare (s.len + length vs)),
          length-take s.len a v.fits,
        ))
  ]

  -- It leaves what other slices show, unless they lie in the same array and are longer.
  pub contents-append_other :
      (t : Slice)
      → IsSlice h t
      → (t.array ≢ s.array) ⊎ (t.len ≤ s.len)
      → contents (append spare s vs h).1 t ≡ contents h t
  unfolding append
  contents-append_other t w apart = ground (arith, take-overwrite_below t.len s.len vs a)

  pub IsSlice-append : IsSlice (append spare s vs h).1 (append spare s vs h).0
  unfolding append
  IsSlice-append = record {
    used = ground arith;
    fits = ground (
      arith,
      length-overwrite s.len vs a,
      length-append (take s.len a) vs,
      length-append (take s.len a ++ vs) (spare (s.len + length vs)),
      length-take s.len a v.fits,
    );
  }

  -- With room in the array, the new slice lies in the same array.
  pub append_in_place :
      s.len + length vs ≤ length a
      → ((append spare s vs h).0 ≡ record s { len = s.len + length vs })
        × IsSlice (append spare s vs h).1 s
        × (length ((append spare s vs h).1.arrays s.array) ≡ length a)
  unfolding append
  append_in_place room =
      let kept = length-overwrite s.len vs a in
      (
        ground arith,
        record { used = ground arith; fits = ground (arith, kept) },
        ground (arith, kept),
      )

  -- It gives a slice in the same array or in a new one, and other slices stay slices.
  pub array-append :
      ((append spare s vs h).0.array ≡ s.array) ⊎ ((append spare s vs h).0.array ≡ h.next)
  unfolding append
  array-append = ground arith

  pub IsSlice-append_other : (t : Slice) → IsSlice h t → IsSlice (append spare s vs h).1 t
  unfolding append
  IsSlice-append_other t w = record {
    used = ground (arith, w.used);
    fits = ground (arith, w.fits, w.used, length-overwrite s.len vs a);
  }

  -- An array without room stays without.
  pub append_empty : (n : ℕ) → n < h.next → h.arrays n ≡ [] → (append spare s vs h).1.arrays n ≡ []
  unfolding append
  append_empty n below blank = ground (arith, overwrite-nil s.len vs)

  pub next-append : h.next ≤ (append spare s vs h).1.next
  unfolding append
  next-append = ground arith
