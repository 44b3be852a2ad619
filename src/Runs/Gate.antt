-- ===== src/Runs/Gate.antt =====
-- gate.py: the destroys of a plan that nothing sanctions.
use cs_image_system.Base.{
  String, Bool, not, ◌&&◌, ◌||◌, Option, none, some, List, [], map, select, any, mem, ◌==◌,
}
use text.Mathlib.Text.{starts_with}
use cs_image_system.Base.Strip.{strip}
use cs_image_system.Base.Words.{◌+++◌}

-- An entry of `resource_changes`.
pub record Change : Type 0 where
  pub address : String
  pub actions : List String

unfoldable pub planned_destroys : List Change → List String
planned_destroys changes =
    map (λ (c : Change). c.address) (select (λ (c : Change). mem "delete" c.actions) changes)

-- The lines of the file that are neither blank nor comments; no file sanctions nothing.
unfoldable pub sanctioned_lines : List String → List String
sanctioned_lines lines =
    select (λ line. not (line == "") && not (starts_with line "#")) (map strip lines)

unfoldable pub sanctioned_addresses : Option (List String) → List String
sanctioned_addresses none = []
sanctioned_addresses (some lines) = sanctioned_lines lines

-- The entry is the address or a prefix of it up to `.` or `[`.
unfoldable pub covers : String → String → Bool
covers address entry =
    address == entry || starts_with address (entry +++ ".") || starts_with address (entry +++ "[")

unfoldable pub gate_plan : List Change → List String → List String → List String
gate_plan changes allow_destroy allow_exact =
    select (λ address. not (mem address allow_exact || any (covers address) allow_destroy))
      (planned_destroys changes)
