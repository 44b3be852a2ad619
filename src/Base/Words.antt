-- ===== src/Base/Words.antt =====
-- Python's operations on texts: `+`, `split("@", 1)[0]`, `in` for one character, and `lower`, which
-- changes the letters of ASCII and leaves every other character.
use Prim.Native.Char.{code}
use Prim.Native.Nat.{ℕ, ◌-◌}
use Prim.Native.String.{String, [], ◌∷◌, ◌++◌, slice}
use mathlib.Core.Bool.{Bool, false, ◌&&◌, ◌||◌}
use cs_image_system.Base.Tests.{leb, num_eq, if◌then◌else◌}

infixr 65 ◌+++◌
abbrev pub ◌+++◌ : String → String → String
s +++ t = s ++ t

-- The text before the first character of the code, or all of it.
unfoldable pub before : ℕ → String → String
before mark [] = []
before mark (c ∷ s) = let rest = before mark s in if num_eq (code c) mark then [] else c ∷ rest

unfoldable pub mentions : ℕ → String → Bool
mentions mark [] = false
mentions mark (c ∷ s) = num_eq (code c) mark || mentions mark s

unfoldable pub lower : String → String
lower [] = []
lower (c ∷ s) =
    let rest = lower s in
    if leb 65 (code c) && leb (code c) 90
    then slice "abcdefghijklmnopqrstuvwxyz" (code c - 65) (code c - 64) ++ rest
    else c ∷ rest

-- `key.rsplit("@", 1)[1] if "@" in key else ""`, for one character.
unfoldable pub after_last : ℕ → String → String
after_last mark [] = []
after_last mark (c ∷ s) =
    let rest = after_last mark s in
    if mentions mark s then rest else if num_eq (code c) mark then s else []
