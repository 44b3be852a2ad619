-- ===== src/Aliases/Line.antt =====
-- alias_pool.py: the lines of the pool, and the pattern of a spent line.
use Prim.Native.Char.{code}
use Prim.Native.String.{[], ◌∷◌}
use Prim.Native.Nat.{ℕ}
use mathlib.Core.Bool.{Bool, false, ◌&&◌, ◌||◌}
use mathlib.Core.Option.{Option, none, some}
use text.Mathlib.Text.{◌==◌, starts_with}
use cs_image_system.Base.{String, num_eq, if◌then◌else◌}
use cs_image_system.Base.Strip.{between, is_space, lstrip, strip}
use cs_image_system.Base.Words.{◌+++◌}

abbrev pub is_alnum : ℕ → Bool
is_alnum c = between b'0' b'9' c || between b'A' b'Z' c || between b'a' b'z' c

-- `[A-Za-z0-9-]`
abbrev pub is_label_char : ℕ → Bool
is_label_char c = is_alnum c || num_eq c b'-'

-- `[A-Za-z0-9-]*` at the head of a text, and what follows it.
unfoldable pub label : String → String
label [] = []
label (c ∷ s) = let rest = label s in if is_label_char (code c) then c ∷ rest else []

unfoldable pub after_label : String → String
after_label [] = []
after_label (c ∷ s) = let rest = after_label s in if is_label_char (code c) then rest else c ∷ s

unfoldable pub starts_alnum : String → Bool
starts_alnum [] = false
starts_alnum (c ∷ s) = is_alnum (code c)

-- `--\s+(?P<record>.+?)\s*$`
unfoldable pub has_record : String → Bool
has_record (c ∷ d ∷ e ∷ f ∷ s) = num_eq (code c) b'-' && num_eq (code d) b'-' && is_space (code e)
has_record _ = false

-- `\s+--\s+(?P<record>.+?)\s*$`
unfoldable pub has_dashes : String → Bool
has_dashes [] = false
has_dashes (c ∷ s) = let rest = has_record (lstrip s) in is_space (code c) && rest

unfoldable pub name_part : String → Option String
name_part s = if starts_alnum (label s) && has_dashes (after_label s) then some (label s) else none

unfoldable pub hash_part : String → Option String
hash_part [] = none
hash_part (c ∷ s) = let name = name_part (lstrip s) in if num_eq (code c) b'#' then name else none

-- The name that `_SPENT_RE` finds in a line.
unfoldable pub spent_name : String → Option String
spent_name raw = hash_part (lstrip raw)

unfoldable pub is_comment : String → Bool
is_comment [] = false
is_comment (c ∷ s) = num_eq (code c) b'#'

-- The name of a line that is neither blank nor a comment.
unfoldable pub free_name : String → Option String
free_name raw =
    let line = strip raw in if line == "" then none else if is_comment line then none else some line

unfoldable pub burn_record : (taken_by : String) → (run_id : String) → (when : String) → String
burn_record taken_by run_id when = taken_by +++ " " +++ when +++ " run " +++ run_id

unfoldable pub spent_line : String → String → String
spent_line name record_ = "# " +++ name +++ "  -- " +++ record_

-- `needle in text`
unfoldable pub contains : String → String → Bool
contains needle [] = starts_with [] needle
contains needle (c ∷ s) = starts_with (c ∷ s) needle || contains needle s
