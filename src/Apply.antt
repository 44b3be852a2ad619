-- ===== src/Apply.antt =====
-- packages/base/src/cs_image_system/base/utils.py: the flag `config: apply_<lifecycle>` and the
-- roots that it lets apply.
mod Tests
pub mod Scope
use cs_image_system.Base.{
  String, Bool, true, false, not, ◌&&◌, ◌||◌, Option, none, some, List, [], ◌∷◌, map, any, mem,
  select, ◌==◌, if◌then◌else◌,
}
use cs_image_system.Base.Strip.{strip}

-- What the configuration holds under the key.
pub data Flag : Type 0 where
  unset : Flag
  switch : Bool → Flag
  one : String → Flag
  several : List String → Flag

-- `{str(v).strip() for v in value if str(v).strip()}`
unfoldable pub listed_names : List String → List String
listed_names names = select (λ n. not (n == "")) (map strip names)

abbrev has_names : List String → Bool
has_names [] = false
has_names (n ∷ ns) = true

unfoldable pub names_allow : List String → Option String → List String → Bool
unfolding listed_names
names_allow names root aliases =
    let listed = listed_names names in
    elim (has_names listed) [
      | false ↦ false
      | true ↦ elim root [
        | none ↦ true
        | some r ↦ mem r listed || any (λ a. not (a == "") && mem a listed) aliases
      ]
    ]

unfoldable pub apply_flag_allows : Flag → Option String → List String → Bool
unfolding names_allow
apply_flag_allows unset root aliases = false
apply_flag_allows (switch b) root aliases = b
apply_flag_allows (one name) root aliases = names_allow (name ∷ []) root aliases
apply_flag_allows (several names) root aliases = names_allow names root aliases
