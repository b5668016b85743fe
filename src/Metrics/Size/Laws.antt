-- ===== src/Metrics/Size/Laws.antt =====
-- The size is the sum of the parts, whatever the order of the header.
use Prim.Native.String.{len}
use mathlib.Core.List.{Perm, Permᴰ}
use mathlib.Core.Logic.{∥∥₁_elim}
use native.Mathlib.Nat.{ℕ_set}
use openim_project_template.Base.{
  ℕ, ◌+◌, ◌%◌, String, ◌≡◌, refl, ◌∙◌, ap, ◌==◌, nat_eq, if◌then◌else◌, Option, none, some, List,
  [], ◌∷◌, arith,
}
use openim_project_template.Metrics.Size.{
  Request, int_mod, minus_one, add_values, add_header, compute_approximate_request_size,
}

abbrev sum_values : List String → ℕ
sum_values [] = 0
sum_values (v ∷ vs) = len v + sum_values vs

abbrev entry_size : String × List String → ℕ
entry_size (name, values) = len name + sum_values values

abbrev sum_header : List (String × List String) → ℕ
sum_header [] = 0
sum_header (e ∷ h) = entry_size e + sum_header h

abbrev path_sum : Option String → ℕ
path_sum none = 0
path_sum (some path) = len path

-- The exact sum, over the natural numbers.
abbrev pub total : Request → ℕ
total r =
    path_sum r.url_path
    + len r.method
    + len r.proto
    + sum_header r.header
    + len r.host
    + (if r.content_length == minus_one then 0 else r.content_length)

mod_again : (a b : ℕ) → ((a % int_mod) + b) % int_mod ≡ (a + b) % int_mod
mod_again a b = omega arith

add_values-mod :
    (s : ℕ) (vs : List String) → add_values (s % int_mod) vs ≡ (s + sum_values vs) % int_mod
unfolding add_values
add_values-mod s [] = omega arith
add_values-mod s (v ∷ vs) =
    rw mod_again (add_values-mod (s + len v) vs ∙ ap (λ n. n % int_mod) (omega arith))

add_header-mod :
    (s : ℕ) (h : List (String × List String))
    → add_header (s % int_mod) h ≡ (s + sum_header h) % int_mod
unfolding add_header
add_header-mod s [] = omega arith
add_header-mod s ((name, values) ∷ h) =
    rw (mod_again, add_values-mod)
      (add_header-mod (s + len name + sum_values values) h ∙ ap (λ n. n % int_mod) (omega arith))

-- The approximate request size is the exact sum of the parts modulo 2 ^ 64, in which the unknown
-- content length counts for nothing.
pub compute_approximate_request_size_lem :
    (r : Request) → compute_approximate_request_size r ≡ total r % int_mod
unfolding compute_approximate_request_size
compute_approximate_request_size_lem r =
    ground (
      arith,
      add_header-mod ((path_sum r.url_path + len r.method) % int_mod + len r.proto) r.header,
    )

sum_header-perm : {g h : List (String × List String)} → Permᴰ g h → sum_header g ≡ sum_header h
sum_header-perm Permᴰ.nil = refl
sum_header-perm (Permᴰ.cons e p) = omega (arith, ap entry_size e, sum_header-perm p)
sum_header-perm (Permᴰ.swap e f) = omega (arith, ap entry_size e, ap entry_size f)
sum_header-perm (Permᴰ.trans p q) = sum_header-perm p ∙ sum_header-perm q

-- The order in which the header is ranged over has no part in the result.
compute_approximate_request_size-perm :
    (r : Request) (h : List (String × List String))
    → Perm r.header h
    → compute_approximate_request_size (record r { header = h })
      ≡ compute_approximate_request_size r
compute_approximate_request_size-perm r h p = ∥∥₁_elim p (ℕ_set _ _) λ q.
    let same = sum_header-perm q in
    compute_approximate_request_size_lem (record r { header = h })
    ∙ ground (arith, same, compute_approximate_request_size_lem r)
