-- ===== src/Base/Text.antt =====
-- Python's `str.strip` on native texts.
pub mod Slices
pub mod Decimal
use Prim.Native.Nat.{ℕ}
use Prim.Native.Char.{Char, code}
use Prim.Native.String.{String, [], ◌∷◌}
use mathlib.Core.Bool.{Bool, true, false, ◌&&◌, ◌||◌}
use azure_functions_langgrap.Base.Tests.{if◌then◌else◌, leb}
use azure_functions_langgrap.Base.Equality.{◌==◌, nat_eq}

between : ℕ → ℕ → ℕ → Bool
between a b n = leb a n && leb n b

-- `str.isspace` on one character.
unfoldable pub is_space : Char → Bool
unfolding between
is_space c =
    between 9 13 (code c)
    || (between 28 32 (code c)
        || (code c == 133
            || (code c == 160
                || (code c == 5760
                    || (between 8192 8202 (code c)
                        || (between 8232 8233 (code c)
                            || (code c == 8239 || (code c == 8287 || code c == 12288))))))))

abbrev pub is_empty : String → Bool
is_empty [] = true
is_empty (c ∷ s) = false

unfoldable pub lstrip : String → String
lstrip [] = []
lstrip (c ∷ s) = let rest = lstrip s in if is_space c then rest else c ∷ s

unfoldable pub rstrip : String → String
rstrip [] = []
rstrip (c ∷ s) = let rest = rstrip s in if is_space c && is_empty rest then [] else c ∷ rest

unfoldable pub strip : String → String
unfolding lstrip rstrip is_space
strip s = rstrip (lstrip s)
