-- ===== src/Generations/Flow.antt =====
-- generations.py: the signals of the control flow, and the observation after an apply.
use cs_image_system.Base.{
  String, Bool, true, false, not, ◌&&◌, Option, none, some, List, [], ◌∷◌, or_else, truthy,
  option_eq, ◌==◌, if◌then◌else◌,
}
use cs_image_system.Base.Dict.{Dict, get}
use cs_image_system.Apply.{Flag, apply_flag_allows}
use cs_image_system.Lifecycles.Builtin.{Lifecycle, is_instance_image}
use cs_image_system.Generations.{
  Params, kind_of, observed, inferred, adopted, Why, replaced, replaced_out_of_band, Identity,
  Generation, Item, Instances, Result, ok, ◌>>=◌,
}
use cs_image_system.Generations.Record.{
  current_generation, open_generation, note_generation_identity, note_generation_resized,
  close_generation,
}

-- A launch record with another hostname than the standing machine booted with.
unfoldable pub renamed : Generation → Params → Bool
renamed g params =
    let booted_as = g.launch_params.hostname in
    truthy booted_as && truthy params.hostname && not (option_eq booted_as params.hostname)

unfoldable pub on_launched :
    String → String → Instances → String → Params → (replaced : Bool) → Result Instances
unfolding renamed kind_of
on_launched run now is name params was_replaced = elim (current_generation is name) [
  | none ↦ open_generation is name (kind_of params) run inferred params none now
  | some g ↦
      if (if was_replaced then true else renamed g params)
      then open_generation (close_generation is name run replaced now).0 name (kind_of params) run
          inferred params none now
      else ok is
]

unfoldable pub on_resized :
    String → String → Instances → String → (from_type to_type : String) → Instances
on_resized run now is name from_type to_type =
    (note_generation_resized is name run from_type to_type now).0

unfoldable pub on_gone : String → String → Instances → String → Why → Instances × Option Item
on_gone run now is name why = close_generation is name run why now

pub record Instance : Type 0 where
  pub name : String
  pub type_ : String
  pub runtime : Option String

-- A runtime plugin: whether it answers the identity query, and its answers.
pub record Runtime : Type 0 where
  pub can_query_instance_identity : Bool
  pub query_instance_identity : String → Option Identity

pub record Ctx : Type 0 where
  pub run_id : String
  pub now : String
  pub apply_instances : Flag
  pub instances : List Instance
  pub runtime_builders : Dict Runtime
  pub launch_params : Dict Params

-- What the provider answers for the name, when the query can be made at all.
unfoldable pub queried : Ctx → Instance → Option Identity
queried ctx i = elim i.runtime [
  | none ↦ none
  | some r ↦ if r == "" then none else elim (get ctx.runtime_builders r) [
    | none ↦ none
    | some rtb ↦
        if rtb.can_query_instance_identity then rtb.query_instance_identity i.name else none
  ]
]

-- The body of the loop once the provider has named the machine `seen`.
unfoldable pub reconcile_seen :
    Ctx → Instances → String → Params → Identity → String → Result Instances
unfolding kind_of
reconcile_seen ctx is name params identity seen = elim (current_generation is name) [
  | none ↦
      open_generation is name (kind_of params) ctx.run_id adopted params (some identity) ctx.now
  | some g ↦
      let known = or_else g.instance_id "" in
      if known == ""
      then ok (note_generation_identity is name identity).0
      else if known == seen
      then ok is
      else open_generation (close_generation is name ctx.run_id replaced_out_of_band ctx.now).0 name
          (kind_of params) ctx.run_id observed params (some identity) ctx.now
]

-- Whether this run applies the root of the instance, and its machine was launched.
unfoldable pub is_reconciled : Ctx → Instance → Option Params → Bool
is_reconciled ctx i none = false
is_reconciled ctx i (some params) =
    apply_flag_allows ctx.apply_instances (some i.type_) (or_else i.runtime "None" ∷ [])
    && params.launched

unfoldable pub reconcile_answer :
    Ctx → Instances → String → Option Params → Option Identity → Result Instances
unfolding reconcile_seen
reconcile_answer ctx is name (some params) (some identity) =
    let seen = or_else identity.instance_id "" in
    if seen == "" then ok is else reconcile_seen ctx is name params identity seen
reconcile_answer ctx is name params identity = ok is

unfoldable pub reconcile_instance : Ctx → Instances → Instance → Result Instances
unfolding is_reconciled queried reconcile_answer
reconcile_instance ctx is i =
    let params = get ctx.launch_params i.name in
    if is_reconciled ctx i params
    then reconcile_answer ctx is i.name params (queried ctx i)
    else ok is

unfoldable pub reconcile_instances : Ctx → Instances → List Instance → Result Instances
unfolding reconcile_instance
reconcile_instances ctx is [] = ok is
reconcile_instances ctx is (i ∷ rest) =
    reconcile_instance ctx is i >>= λ is'. reconcile_instances ctx is' rest

unfoldable pub reconcile_generations : Ctx → Lifecycle → Instances → Result Instances
unfolding reconcile_instances is_instance_image
reconcile_generations ctx lifecycle is =
    if is_instance_image lifecycle && apply_flag_allows ctx.apply_instances none []
    then reconcile_instances ctx is ctx.instances
    else ok is
