-- ===== src/Metrics/Size.antt =====
-- `computeApproximateRequestSize`. An `int` is 64 bits wide; it stands here as its bit pattern, a
-- number below 2 ^ 64, and additions wrap around.
pub mod Laws
use Prim.Native.String.{len}
use openim_project_template.Base.{
  ℕ, ◌+◌, ◌-◌, ◌%◌, ◌^◌, String, ◌==◌, nat_eq, if◌then◌else◌, Option, none, some, List, [], ◌∷◌,
}

abbrev pub int_mod : ℕ
int_mod = 2 ^ 64

-- The bit pattern of -1.
abbrev pub minus_one : ℕ
minus_one = 2 ^ 64 - 1

-- What the function reads of a `http.Request`; a nil URL is `none`. The header's entries stand in
-- the order in which the map is ranged over.
pub record Request : Type 0 where
  pub url_path : Option String
  pub method : String
  pub proto : String
  pub header : List (String × List String)
  pub host : String
  pub content_length : ℕ

-- `s += n`
abbrev add_int : ℕ → ℕ → ℕ
add_int s n = (s + n) % int_mod

unfoldable pub add_values : ℕ → List String → ℕ
add_values s [] = s
add_values s (v ∷ vs) = add_values (add_int s (len v)) vs

unfoldable pub add_header : ℕ → List (String × List String) → ℕ
add_header s [] = s
add_header s ((name, values) ∷ h) = add_header (add_values (add_int s (len name)) values) h

abbrev path_size : Option String → ℕ
path_size none = 0
path_size (some path) = len path

unfoldable pub compute_approximate_request_size : Request → ℕ
compute_approximate_request_size r =
    let s = add_int (add_int (path_size r.url_path) (len r.method)) (len r.proto) in
    let t = add_int (add_header s r.header) (len r.host) in
    if r.content_length == minus_one then t else add_int t r.content_length
