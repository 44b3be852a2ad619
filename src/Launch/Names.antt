-- ===== src/Launch/Names.antt =====
-- launch_params.py: whether a run replaces a machine, its hostname and its type.
use Prim.Native.String.{count, slice}
use cs_image_system.Base.{
  ℕ, zero, suc, ◌+◌, ◌*◌, ◌/◌, ◌-◌, String, Bool, false, not, ◌&&◌, ◌||◌, Option, none, some, List,
  select, mem, ltb, num_eq, truthy, or_else, is_some, ◌==◌, if◌then◌else◌,
}
use cs_image_system.Base.Dict.{get, has}
use cs_image_system.Base.Strip.{strip}
use cs_image_system.Base.Words.{◌+++◌}
use cs_image_system.Meta.Pinning.{instance_pin}
use cs_image_system.Generations.{Params, Mount, Kind, durable, ephemeral}
use cs_image_system.Generations.Record.{instance_generation}
use cs_image_system.Lineage.Record.{instance_follow_target}
use cs_image_system.Launch.{LaunchInstance, LaunchCtx, LaunchState}

unfoldable pub recorded_of : LaunchState → String → Option Params
recorded_of st name = get st.params name

-- The policy of the instance replaces its machine in this run.
unfoldable pub follows : LaunchCtx → LaunchState → LaunchInstance → Bool
follows ctx st i = is_some (instance_follow_target (record ctx.bake { pins = st.pins }) i.pinned)

unfoldable pub will_replace : LaunchCtx → LaunchState → LaunchInstance → Bool
will_replace ctx st i = has st.pins.pending_replacements i.pinned.name || follows ctx st i

digit : ℕ → String
digit d = slice "0123456789" d (d + 1)

digits : ℕ → ℕ → String
digits zero n = ""
digits (suc fuel) n =
    let rest = digits fuel (n / 10) in
    if ltb n 10 then digit n else rest +++ digit (n - n / 10 * 10)

-- A number has fewer digits than it is large, plus one.
unfoldable pub decimal : ℕ → String
unfolding digits digit
decimal n = digits (suc n) n

-- The format `03d`: zeros in front up to three characters.
unfoldable pub padded : ℕ → String
unfolding decimal
padded n =
    let text = decimal n in
    if num_eq (count text) 1
    then "00" +++ text
    else if num_eq (count text) 2
    then "0" +++ text
    else text

unfoldable pub kind_of_instance : LaunchInstance → Kind
kind_of_instance i = if i.ephemeral then ephemeral else durable

-- The name of the next generation.
unfoldable pub next_hostname : LaunchState → LaunchInstance → String
next_hostname st i =
    i.pinned.name
    +++ "-"
    +++ padded (instance_generation st.generations i.pinned.name (kind_of_instance i) + 1)

-- The hostname of a machine that stands, where the record names one.
unfoldable pub standing_hostname : Option Params → Option String
standing_hostname none = none
standing_hostname (some p) = if p.launched && truthy p.hostname then p.hostname else none

unfoldable pub canonical_hostname : LaunchCtx → LaunchState → LaunchInstance → String
canonical_hostname ctx st i = elim (standing_hostname (recorded_of st i.pinned.name)) [
  | none ↦ next_hostname st i
  | some hostname ↦ if will_replace ctx st i then next_hostname st i else hostname
]

unfoldable pub effective_machine_type : LaunchCtx → LaunchInstance → String
effective_machine_type ctx i =
    let own = strip (or_else i.machine_type "") in
    if own == "" then strip (ctx.default_machine_type i.pinned.runtime) else own

unfoldable pub resized_from : Option Params → Option String
resized_from none = none
resized_from (some p) = if p.launched && truthy p.machine_type then p.machine_type else none

-- The machine type of the record and the other that the declaration names.
unfoldable pub resize_of : LaunchCtx → LaunchState → LaunchInstance → Option (String × String)
resize_of ctx st i = elim (resized_from (recorded_of st i.pinned.name)) [
  | none ↦ none
  | some old ↦
      let new = effective_machine_type ctx i in
      if new == "" || new == old then none else some (old, new)
]

unfoldable pub compute_launch_params : LaunchCtx → LaunchState → LaunchInstance → Params
compute_launch_params ctx st i =
    let machine_type = effective_machine_type ctx i in
    let pin = instance_pin st.pins i.pinned.name in
    record {
      build = if truthy pin then pin else some "unbound";
      hostname = some (canonical_hostname ctx st i);
      alias = ctx.alias_of i.pinned.name;
      machine_type = if machine_type == "" then none else some machine_type;
      ephemeral = i.ephemeral;
      group = i.group;
      mounts = i.mounts;
      others = i.others;
      launched = false;
      launched_run = none;
      run = none;
    }

unfoldable pub detached_from : Option Params → LaunchInstance → List Mount
detached_from none i = List.[]
detached_from (some p) i =
    if p.launched then select (λ m. not (mem m.storage i.storages)) p.mounts else List.[]

-- The mounts of a launched machine that its declaration no longer lists.
unfoldable pub detachments : LaunchState → LaunchInstance → List Mount
detachments st i = detached_from (recorded_of st i.pinned.name) i
