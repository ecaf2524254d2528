-- ===== src/Cli/Print.antt =====
-- pkg/cli/print.go, and the constants of api/v1alpha1 as they are printed: colours, ages, and the form
-- of a table. A table is the list of the texts that are written, before the tab writer aligns them;
-- `%t` is given the word for its truth value.
use reactive_policy.Common.{
  ◌+◌, ◌*◌, ◌/◌, pos, negsuc, pos_part, leb, Time, Duration, time_sub, String, List, [], ◌∷◌, ◌++◌,
  Option, none, some, Bool, true, false, ◌&&◌, str_eq, if◌then◌else◌,
}
use reactive_policy.Api.{PolicyState, MetricSource, FailurePolicy}
use reactive_policy.Api.Meta.{ConditionStatus}
use reactive_policy.Platform.{Platform, Arg}

-- The constants of api/v1alpha1 as texts
abbrev pub state_text : PolicyState → String
state_text PolicyState.unset = ""
state_text PolicyState.watching = "Watching"
state_text PolicyState.triggering = "Triggering"
state_text PolicyState.awaiting_approval = "AwaitingApproval"
state_text PolicyState.cooldown = "Cooldown"
state_text PolicyState.rate_limited = "RateLimited"
state_text PolicyState.invalid = "Invalid"

abbrev pub source_text : MetricSource → String
source_text MetricSource.prometheus = "prometheus"
source_text (MetricSource.other text) = text

abbrev pub failure_text : FailurePolicy → String
failure_text FailurePolicy.unset = ""
failure_text FailurePolicy.continue = "continue"
failure_text FailurePolicy.stop = "stop"
failure_text FailurePolicy.rollback = "rollback"
failure_text (FailurePolicy.other text) = text

abbrev pub bool_text : Bool → String
bool_text true = "true"
bool_text false = "false"

abbrev pub condition_text : ConditionStatus → String
condition_text ConditionStatus.cond_true = "True"
condition_text ConditionStatus.cond_false = "False"

-- orNone
abbrev pub or_none : String → String
or_none s = if str_eq s "" then "<none>" else s

-- The colours of print.go; `paint` writes the terminal's codes.
pub data Colour : Type 0 where
  green red yellow : Colour

abbrev pub colour_of : String → Option Colour
colour_of status =
    if str_eq status "Succeeded"
    then some Colour.green
    else if str_eq status "Watching"
    then some Colour.green
    else if str_eq status "Failed"
    then some Colour.red
    else if str_eq status "Invalid"
    then some Colour.red
    else if str_eq status "Skipped"
    then some Colour.yellow
    else if str_eq status "Cooldown"
    then some Colour.yellow
    else if str_eq status "RateLimited"
    then some Colour.yellow
    else none

-- The zero time.Time, in nanoseconds
abbrev pub is_unknown : Time → Bool
is_unknown (pos n) = false
is_unknown (negsuc n) = leb n 62135596799999999999 && leb 62135596799999999999 n

-- Duration.Round to a second, of a positive duration
abbrev pub round_second : Duration → Duration
round_second d = pos ((pos_part d + 500000000) / 1000000000 * 1000000000)

-- The output of --output
pub data OutputFormat : Type 0 where
  table json yaml : OutputFormat

-- Factory.output and the switch of printObject
unfoldable pub output_format : String → OutputFormat
output_format output =
    if str_eq output "json"
    then OutputFormat.json
    else if str_eq output "yaml"
    then OutputFormat.yaml
    else OutputFormat.table

-- A column for the namespace, if all of them are listed
abbrev pub in_namespace : Bool → String → List Arg → List Arg
in_namespace true namespace args = Arg.text namespace ∷ args
in_namespace false namespace args = args

abbrev pub format_for : Bool → String → String → String
format_for true long short = long
format_for false long short = short

-- The rows of a table, each of which may read the clock
abbrev pub rows_of : {A W : Type 0} → (A → W → List String × W) → List A → W → List String × W
rows_of row [] w = ([], w)
rows_of row (a ∷ rest) w =
    let (texts, w1) = row a w in let (more, w2) = rows_of row rest w1 in (texts ++ more, w2)

abbrev pub under : {W : Type 0} → String → List String × W → List String × W
under heading (rows, w) = (heading ∷ rows, w)

-- `human` is duration.HumanDuration; `paint` is there if stdout is a terminal.
module _ {W F : Type 0} (p : Platform W F) (human : Duration → String)
    (paint : Option (Colour → String → String)) where
  -- colorize
  unfoldable pub colorize : String → String
  colorize status = elim paint [
    | none ↦ status
    | some escape ↦ elim (colour_of status) [ none ↦ status | some c ↦ escape c status ]
  ]

  -- age
  unfoldable pub age : Time → W → String × W
  unfolding time_sub
  age t w =
      let (now, w') = p.now w in
      if is_unknown t then ("<unknown>", w) else (human (time_sub now t), w')

  -- `age(t) + " ago"`
  abbrev pub age_ago : Time → W → String × W
  age_ago t w = let (text, w') = age t w in (p.sprintf "%s ago" (Arg.text text ∷ []), w')

  abbrev pub last_text : Option Time → W → String × W
  last_text none w = ("<never>", w)
  last_text (some t) w = age t w
