-- ===== src/Upgrade/Moved.antt =====
-- upgrade.py: an upgrade moves one pin.
use cs_image_system.Base.{String, ◌≡◌, refl, false, some, ◌==◌, if◌then◌else◌}
use cs_image_system.Base.Words.{before}
use cs_image_system.Base.Dict.{Dict, get}
use cs_image_system.Meta.{PinKind, instance_pin_kind, image_pin_kind, Pins, upgrade as by_upgrade}
use cs_image_system.Upgrade.{Answer, accepted, refused, ◌>>=◌, upgrade}

-- The pins after the move of one pin to the build, by the pin's kind.
abbrev pub IsMoved : PinKind → String → String → Pins → Pins → Type 0
IsMoved instance_pin_kind name id p q =
    ((other : String)
      → get q.instances other ≡ (if name == other then some id else get p.instances other))
    × (q.images ≡ p.images)
    × (get q.pending_replacements name ≡ some id)
IsMoved image_pin_kind name id p q =
    (get q.images name ≡ some id)
    × ((other : String)
        → name == other ≡ false
        → before 64 name == other ≡ false
        → get q.images other ≡ get p.images other)
    × (q.instances ≡ p.instances)
    × (q.pending_replacements ≡ p.pending_replacements)

pub accepted-inj : {A : Type 0} (a b : A) → accepted a ≡ accepted b → a ≡ b
accepted-inj a b h = cc

pub bind-accepted :
    {A B : Type 0} (r : Answer A) (f : A → Answer B) (b : B)
    → r >>= f ≡ accepted b
    → (a : A) × (r ≡ accepted a) × (f a ≡ accepted b)
bind-accepted (accepted a) f b h = (a, refl, h)
bind-accepted (refused e) f b h = cc
