-- ===== src/Apply/Tests.antt =====
-- The flag at small values.
use cs_image_system.Base.{◌≡◌, refl, true, false, none, some, [], ◌∷◌}
use cs_image_system.Base.Strip.{strip}
use cs_image_system.Apply.{several, one, apply_flag_allows}
use cs_image_system.Apply.Scope.{apply_flag_allows-root}

by_runtime : apply_flag_allows (several (" aws " ∷ "" ∷ [])) (some "ec2") ("aws" ∷ []) ≡ true
unfolding apply_flag_allows strip
by_runtime = refl

blank : apply_flag_allows (one "  ") none [] ≡ false
unfolding apply_flag_allows strip
blank = refl

apply_flag_allows-root_example : apply_flag_allows (several (" aws " ∷ "" ∷ [])) none [] ≡ true
apply_flag_allows-root_example =
    apply_flag_allows-root (several (" aws " ∷ "" ∷ [])) "ec2" ("aws" ∷ []) by_runtime
