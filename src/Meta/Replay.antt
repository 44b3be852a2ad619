-- ===== src/Meta/Replay.antt =====
-- meta_state.py: the audit list of the pins, replayed.
use cs_image_system.Base.{
  String, ◌≡◌, refl, ◌∙◌, ap, inl, inr, Bool, true, false, Option, none, some, List, [], ◌∷◌, ◌++◌,
  arith, map, ◌==◌, if◌then◌else◌, Bool-cases, Option-cases,
}
use cs_image_system.Base.Dict.{Dict, get, put, del, has, get-put, get-del}
use cs_image_system.Meta.{PinKind, instance_pin_kind, image_pin_kind, Op, dispose, Upgrade, Pins}
use cs_image_system.Meta.Pinning.{
  bind_instance, bind_image, move_pin, clear_pending_replacement, removal, pinned_at,
  unpin_images_at, remove_instance_pin,
}

-- The calls that change `pins.yaml`.
pub data Operation : Type 0 where
  binds_instance : (name : String) → (build_id : String) → (run : String) → Operation
  binds_image :
      (image : String)
      → (build_id : String) → (run : String) → (runtime : Option String) → Operation
  moves_pin :
      PinKind
      → (name : String) → (to_build : String) → (run : String) → Op
      → (pending : Bool) → Operation
  clears_pending : (name : String) → Operation
  unpins_images : (build_id : String) → (run : String) → Operation
  removes_pin : (name : String) → (run : String) → Op → Operation

abbrev pub perform : Pins → Operation → Pins
perform p (binds_instance name build_id run) = bind_instance p name build_id run
perform p (binds_image image build_id run runtime) = bind_image p image build_id run runtime
perform p (moves_pin kind name to_build run op pending) =
    (move_pin p kind name to_build run op pending).0
perform p (clears_pending name) = clear_pending_replacement p name
perform p (unpins_images build_id run) = (unpin_images_at p build_id run).0
perform p (removes_pin name run op) = remove_instance_pin p name run op

abbrev pub perform_all : Pins → List Operation → Pins
perform_all p [] = p
perform_all p (o ∷ os) = perform_all (perform p o) os

-- What one entry of the audit list says of the instances' pins.
abbrev pub replay_one : Dict String → Upgrade → Dict String
replay_one d u = elim u.kind [
  | image_pin_kind ↦ d
  | instance_pin_kind ↦ elim u.to_build [ none ↦ del d u.name | some b ↦ put d u.name b ]
]

abbrev pub replay : Dict String → List Upgrade → Dict String
replay d [] = d
replay d (u ∷ us) = replay (replay_one d u) us

replay-append :
    (d : Dict String) (us vs : List Upgrade) → replay d (us ++ vs) ≡ replay (replay d us) vs
replay-append d [] vs = refl
replay-append d (u ∷ us) vs = replay-append (replay_one d u) us vs

replay-removal :
    (d : Dict String) (build_id run : String) (names : List String)
    → replay d (map (λ (key : String). removal image_pin_kind build_id run key dispose) names) ≡ d
unfolding removal
replay-removal d build_id run [] = refl
replay-removal d build_id run (n ∷ names) = replay-removal d build_id run names

module _ (d e q : Dict String) (k v n : String) where
  get-put_agree : get d n ≡ get e n → get (put d k v) n ≡ get (put e k v) n
  get-put_agree h = ground (arith, get-put d k n v, get-put e k n v, h)

  get-del_agree : get d n ≡ get e n → get (del d k) n ≡ get (del e k) n
  get-del_agree h = ground (arith, get-del d k n, get-del e k n, h)

  has-put_kept : (has q n ≡ true → has e n ≡ true) → has q n ≡ true → has (put e k v) n ≡ true
  has-put_kept h m = ground (arith, get-put e k n v, h m)

  has-put_both :
      (has q n ≡ true → has e n ≡ true) → has (put q k v) n ≡ true → has (put e k v) n ≡ true
  has-put_both h m = elim (Bool-cases (k == n)) [
    | inl same ↦ ground (arith, get-put e k n v, same)
    | inr other ↦ has-put_kept h (ground (arith, get-put q k n v, other, m))
  ]

  has-moved :
      (pending : Bool)
      → (has q n ≡ true → has e n ≡ true)
      → has (if pending then put q k v else q) n ≡ true
      → has (put e k v) n ≡ true
  has-moved true h m = has-put_both h m
  has-moved false h m = has-put_kept h m

  has-del_kept : has (del q k) n ≡ true → has q n ≡ true
  has-del_kept m = ground (arith, get-del q k n, m)

  has-del_both : (has q n ≡ true → has e n ≡ true) → has (del q k) n ≡ true → has (del e k) n ≡ true
  has-del_both h m = ground (arith, get-del e k n, get-del q k n, m, h (has-del_kept m))

-- The audit list gives every instance its pin, and a pending replacement is of a pinned instance.
abbrev pub IsAudited : Pins → Type 0
IsAudited p =
    (name : String)
    → (get (replay [] p.upgrades) name ≡ get p.instances name)
      × (has p.pending_replacements name ≡ true → has p.instances name ≡ true)

bind_instance-IsAudited :
    (p : Pins) (name build_id run : String)
    → IsAudited p
    → IsAudited (bind_instance p name build_id run)
unfolding bind_instance
bind_instance-IsAudited p name build_id run h n = (
  rw replay-append (get-put_agree (replay [] p.upgrades) p.instances [] name build_id n (h n).0),
  has-put_kept [] p.instances p.pending_replacements name build_id n (h n).1,
)

bind_image-IsAudited :
    (p : Pins) (image build_id run : String) (runtime : Option String)
    → IsAudited p
    → IsAudited (bind_image p image build_id run runtime)
unfolding bind_image
bind_image-IsAudited p image build_id run runtime h n =
    (rw replay-append (h n).0, λ pending. (h n).1 pending)

move_pin-IsAudited :
    (p : Pins) (kind : PinKind) (name to_build run : String) (op : Op) (pending : Bool)
    → IsAudited p
    → IsAudited (move_pin p kind name to_build run op pending).0
unfolding move_pin
move_pin-IsAudited p instance_pin_kind name to_build run op pending h n = (
  rw replay-append (get-put_agree (replay [] p.upgrades) p.instances [] name to_build n (h n).0),
  has-moved [] p.instances p.pending_replacements name to_build n pending (h n).1,
)
move_pin-IsAudited p image_pin_kind name to_build run op pending h n =
    (rw replay-append (h n).0, λ before. (h n).1 before)

clear_pending_replacement-IsAudited :
    (p : Pins) (name : String) → IsAudited p → IsAudited (clear_pending_replacement p name)
unfolding clear_pending_replacement
clear_pending_replacement-IsAudited p name h n =
    ((h n).0, λ pending. (h n).1 (has-del_kept [] [] p.pending_replacements name "" n pending))

unpin_images_at-IsAudited :
    (p : Pins) (build_id run : String) → IsAudited p → IsAudited (unpin_images_at p build_id run).0
unfolding unpin_images_at
unpin_images_at-IsAudited p build_id run h n = (
  ap (λ d. get d n)
        (replay-append [] p.upgrades _
          ∙ replay-removal _ build_id run (pinned_at p.images build_id))
      ∙ (h n).0,
  λ pending. (h n).1 pending,
)

remove_instance_pin-IsAudited :
    (p : Pins) (name run : String) (op : Op)
    → IsAudited p
    → IsAudited (remove_instance_pin p name run op)
unfolding remove_instance_pin
remove_instance_pin-IsAudited p name run op h n = elim (Option-cases (get p.instances name)) [
  | inl absent ↦ rw (absent, remove_instance_pin) (h n)
  | inr (previous, at) ↦
      rw (at, remove_instance_pin)
        (
          rw replay-append (get-del_agree (replay [] p.upgrades) p.instances [] name "" n (h n).0),
          has-del_both [] p.instances p.pending_replacements name "" n (h n).1,
        )
]

perform-IsAudited : (p : Pins) (o : Operation) → IsAudited p → IsAudited (perform p o)
perform-IsAudited p (binds_instance name build_id run) h =
    bind_instance-IsAudited p name build_id run h
perform-IsAudited p (binds_image image build_id run runtime) h =
    bind_image-IsAudited p image build_id run runtime h
perform-IsAudited p (moves_pin kind name to_build run op pending) h =
    move_pin-IsAudited p kind name to_build run op pending h
perform-IsAudited p (clears_pending name) h = clear_pending_replacement-IsAudited p name h
perform-IsAudited p (unpins_images build_id run) h = unpin_images_at-IsAudited p build_id run h
perform-IsAudited p (removes_pin name run op) h = remove_instance_pin-IsAudited p name run op h

-- After any operations on the pins, in any order, from pins where this holds, the audit list alone tells the pin of every
-- instance, and every pending replacement is of an instance that is pinned.
pub perform_all-IsAudited :
    (p : Pins) (os : List Operation) → IsAudited p → IsAudited (perform_all p os)
perform_all-IsAudited p [] h = h
perform_all-IsAudited p (o ∷ os) h =
    perform_all-IsAudited (perform p o) os (perform-IsAudited p o h)
