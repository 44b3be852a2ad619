-- ===== src/Lifecycles/Builtin.antt =====
-- packages/contract/src/cs_image_system/contract/lifecycles.py: the built-in lifecycles as data.
use cs_image_system.Base.{String, Bool, true, false, List, [], ◌∷◌}

pub data Lifecycle : Type 0 where
  identity storage base_image instance_image : Lifecycle

unfoldable pub is_instance_image : Lifecycle → Bool
is_instance_image instance_image = true
is_instance_image _ = false

unfoldable pub builtin_value : Lifecycle → String
builtin_value identity = "identity"
builtin_value storage = "storage"
builtin_value base_image = "base-image"
builtin_value instance_image = "instance-image"

unfoldable pub lifecycle_order : List Lifecycle
lifecycle_order = identity ∷ storage ∷ base_image ∷ instance_image ∷ []

unfoldable pub lifecycle_phases : Lifecycle → List String
lifecycle_phases identity = "USER_GENERATION" ∷ "GROUP_GENERATION" ∷ []
lifecycle_phases storage = "STORAGE_GENERATION" ∷ []
lifecycle_phases base_image = "IMAGE_GENERATION" ∷ []
lifecycle_phases instance_image = "IMAGE_GENERATION" ∷ "INSTANCE_GENERATION" ∷ []

unfoldable pub lifecycle_builder_vcts : Lifecycle → List String
lifecycle_builder_vcts identity = "USER_BUILDER" ∷ "GROUP_BUILDER" ∷ []
lifecycle_builder_vcts storage = "STORAGE_BUILDER" ∷ []
lifecycle_builder_vcts base_image = "IMAGE_BUILDER" ∷ []
lifecycle_builder_vcts instance_image = "IMAGE_BUILDER" ∷ "INSTANCE_BUILDER" ∷ []
