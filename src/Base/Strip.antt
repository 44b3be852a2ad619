-- ===== src/Base/Strip.antt =====
-- Python's `str.strip`: the white space at both ends of a text is dropped.
use Prim.Native.Char.{code}
use Prim.Native.String.{String, [], ◌∷◌}
use Prim.Native.Nat.{ℕ}
use mathlib.Core.Bool.{Bool, ◌&&◌, ◌||◌}
use text.Mathlib.Text.{◌==◌}
use cs_image_system.Base.Tests.{leb, num_eq, if◌then◌else◌}

abbrev pub between : ℕ → ℕ → ℕ → Bool
between a b c = leb a c && leb c b

-- The characters for which `str.isspace` answers true.
abbrev pub is_space : ℕ → Bool
is_space c =
    between 9 13 c
    || between 28 32 c
    || num_eq c 133
    || num_eq c 160
    || num_eq c 5760
    || between 8192 8202 c
    || between 8232 8233 c
    || num_eq c 8239
    || num_eq c 8287
    || num_eq c 12288

unfoldable pub lstrip : String → String
lstrip [] = []
lstrip (c ∷ s) = if is_space (code c) then lstrip s else c ∷ s

unfoldable pub rstrip : String → String
rstrip [] = []
rstrip (c ∷ s) = let rest = rstrip s in if is_space (code c) && rest == "" then [] else c ∷ rest

unfoldable pub strip : String → String
unfolding lstrip rstrip
strip s = rstrip (lstrip s)
