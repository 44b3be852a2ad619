-- ===== src/Apply/Scope.antt =====
-- utils.py, `apply_flag_allows`: what the flag of the whole lifecycle says of its roots.
use cs_image_system.Base.{String, ◌≡◌, true, none, some, List, [], ◌∷◌, arith}
use cs_image_system.Apply.{Flag, unset, switch, one, several, names_allow, apply_flag_allows}

names_allow-root :
    (names : List String) (r : String) (aliases : List String)
    → names_allow names (some r) aliases ≡ true
    → names_allow names none [] ≡ true
unfolding names_allow
names_allow-root names r aliases h = ground arith

-- A flag that lets any root apply is on for its lifecycle: the guard at the head of a hook, which
-- asks for the lifecycle alone, never stops a root that the flag names.
pub apply_flag_allows-root :
    (flag : Flag) (r : String) (aliases : List String)
    → apply_flag_allows flag (some r) aliases ≡ true
    → apply_flag_allows flag none [] ≡ true
unfolding apply_flag_allows
apply_flag_allows-root unset r aliases h = h
apply_flag_allows-root (switch b) r aliases h = h
apply_flag_allows-root (one n) r aliases h = names_allow-root (n ∷ []) r aliases h
apply_flag_allows-root (several ns) r aliases h = names_allow-root ns r aliases h
