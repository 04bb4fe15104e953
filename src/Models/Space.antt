-- ===== src/Models/Space.antt =====
-- The white space of `str.strip`, by code point: a text is blank when `not s.strip()`.
use Prim.Native.Char.{code}
use helpdesktool.Prelude.{ℕ, String, Bool, true, ◌&&◌, ◌||◌, List, [], ◌∷◌, any, eqb, leb}

-- the code points for which `str.isspace` holds, the ranges apart
abbrev single_spaces : List ℕ
single_spaces = 0x20 ∷ 0x85 ∷ 0xa0 ∷ 0x1680 ∷ 0x2028 ∷ 0x2029 ∷ 0x202f ∷ 0x205f ∷ 0x3000 ∷ []

is_space : ℕ → Bool
is_space c =
    leb 9 c && leb c 13
    || leb 0x1c c && leb c 0x1f
    || leb 0x2000 c && leb c 0x200a
    || any (eqb c) single_spaces

unfoldable pub is_blank : String → Bool
unfolding is_space
is_blank String.[] = true
is_blank (String.◌∷◌ c s) = is_space (code c) && is_blank s
