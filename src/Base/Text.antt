-- ===== src/Base/Text.antt =====
-- The functions of Go's package strings that the code calls, over the code points of a text. A
-- search for or a replacement of an ASCII character is the same on bytes and on code points.
use Prim.Native.Nat.{ℕ}
use Prim.Native.Char.{code}
use Prim.Native.String.{String, [], ◌∷◌, ◌++◌}
use mathlib.Core.Bool.{Bool, false, ◌||◌}
use mathlib.Core.List.{List, [], ◌∷◌}
use openim_project_template.Base.Equality.{◌==◌, nat_eq}

abbrev pub codes : String → List ℕ
codes [] = []
codes (c ∷ s) = code c ∷ codes s

-- `strings.Contains(s, c)` for a text `c` of one character
unfoldable pub contains_char : ℕ → String → Bool
unfolding nat_eq
contains_char c [] = false
contains_char c (d ∷ s) = code d == c || contains_char c s

-- `strings.Join(parts, sep)`
unfoldable pub join : List String → String → String
join [] sep = ""
join (p ∷ []) sep = p
join (p ∷ q ∷ parts) sep = p ++ sep ++ join (q ∷ parts) sep
