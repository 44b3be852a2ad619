-- ===== src/Aliases/Draw.antt =====
-- alias_pool.py: what the pool offers, and the draw of a name and its return.
use cs_image_system.Base.{
  ℕ, ◌+◌, String, Bool, true, false, ◌&&◌, Option, none, some, List, [], ◌∷◌, ◌++◌, map, mem,
  option_eq, if◌then◌else◌,
}
use cs_image_system.Base.Words.{◌+++◌}
use cs_image_system.Aliases.{Pool}
use cs_image_system.Aliases.Line.{free_name, spent_name, spent_line, contains}

-- The free names, in the order of their lines.
unfoldable pub free_lines : List String → List String
free_lines [] = []
free_lines (raw ∷ rest) = elim (free_name raw) [
  | none ↦ free_lines rest
  | some name ↦ name ∷ free_lines rest
]

unfoldable pub lines_of : Pool → List String
lines_of none = []
lines_of (some lines) = lines

unfoldable pub free_names : Pool → List String
free_names pool = free_lines (lines_of pool)

unfoldable pub head_name : List String → Option String
head_name [] = none
head_name (name ∷ names) = some name

unfoldable pub peek : Pool → Option String
peek pool = head_name (free_names pool)

-- The first free line becomes a comment with the record, in place.
unfoldable pub draw_line : List String → String → List String × Option String
draw_line [] burned = ([], none)
draw_line (raw ∷ rest) burned =
    let after = draw_line rest burned in
    elim (free_name raw) [
      | none ↦ (raw ∷ after.0, after.1)
      | some name ↦ (spent_line name burned ∷ rest, some name)
    ]

unfoldable pub draw : Pool → String → Pool × Option String
draw none burned = (none, none)
draw (some lines) burned = let after = draw_line lines burned in (some after.0, after.1)

-- The line records that the run took the name.
unfoldable pub is_burned : String → String → String → Bool
is_burned name run_id raw =
    option_eq (spent_name raw) (some name) && contains (" run " +++ run_id) raw

unfoldable pub undraw_line : List String → String → String → List String × Bool
undraw_line [] name run_id = ([], false)
undraw_line (raw ∷ rest) name run_id =
    let after = undraw_line rest name run_id in
    if is_burned name run_id raw then (name ∷ rest, true) else (raw ∷ after.0, after.1)

unfoldable pub undraw : Pool → String → String → Pool × Bool
undraw none name run_id = (none, false)
undraw (some lines) name run_id =
    let after = undraw_line lines name run_id in (some after.0, after.1)

pub data PoolProblem : Type 0 where
  no_hostname : (line : ℕ) → (name : String) → (why : String) → PoolProblem
  repeats : (line : ℕ) → (name : String) → PoolProblem
  already_given : (line : ℕ) → (name : String) → PoolProblem

unfoldable pub line_problems :
    (String → List String) → List String → List String → ℕ → String → List PoolProblem
line_problems hostname_problems reserved seen number name =
    map (no_hostname number name) (hostname_problems name)
    ++ (if mem name seen then repeats number name ∷ [] else [])
    ++ (if mem name reserved then already_given number name ∷ [] else [])

-- From the line of the number on, told the names seen before it.
unfoldable pub problems_from :
    (String → List String) → List String → List String → ℕ → List String → List PoolProblem
problems_from hostname_problems reserved seen number [] = []
problems_from hostname_problems reserved seen number (raw ∷ rest) = elim (free_name raw) [
  | none ↦ problems_from hostname_problems reserved seen (number + 1) rest
  | some name ↦
      line_problems hostname_problems reserved seen number name
      ++ problems_from hostname_problems reserved (name ∷ seen) (number + 1) rest
]

-- `reserved` is empty where the caller gives none.
unfoldable pub pool_problems : (String → List String) → Pool → List String → List PoolProblem
pool_problems hostname_problems pool reserved =
    problems_from hostname_problems reserved [] 1 (lines_of pool)
