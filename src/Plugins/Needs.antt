-- ===== src/Plugins/Needs.antt =====
-- The permissions of the built-in plugins have plain names, so their merging loses and adds nothing.
use Prim.Native.Char.{Char, code}
use reactive_policy.Common.{
  String, List, [], ◌∷◌, Option, Bool, true, false, not, ◌&&◌, ◌==◌, All, ◌≡◌, refl, ap, arith,
  both,
}
use reactive_policy.Platform.{Platform}
use reactive_policy.Action.Types.{PolicyRule}
use reactive_policy.Action.Permissions.{required}
use reactive_policy.Action.Permissions.Keys.{Lacks, IsPlain, PlainNames, unit, bar}
use reactive_policy.Action.Permissions.Grants.{IsPlainRule}
use reactive_policy.Plugins.Kit.{Client, Kit}
use reactive_policy.Plugins.BuiltIn.{Codecs, built_in}
use reactive_policy.Plugins.MeshShift.Shift.{mesh_shift}
use reactive_policy.Plugins.Isolate.Policy.{network_isolate}
use reactive_policy.Plugins.Annotate.{k8s_annotate}
use reactive_policy.Plugins.Suspend.{argocd_suspend}
use reactive_policy.Plugins.Slack.{notify_slack}

abbrev lacks : Char → String → Bool
lacks c String.[] = true
lacks c (String.◌∷◌ d s) = not (code d == code c) && lacks c s

lacks-Lacks : (c : Char) (s : String) → lacks c s ≡ true → Lacks c s
lacks-Lacks c String.[] h = tt
lacks-Lacks c (String.◌∷◌ d s) h =
    let (differ, rest) = both (not (code d == code c)) (lacks c s) h in
    ((λ e. ground (arith, ap code e)), lacks-Lacks c s rest)

abbrev all_plain : List String → Bool
all_plain [] = true
all_plain (s ∷ rest) = (lacks unit s && lacks bar s) && all_plain rest

all_plain-All : (names : List String) → all_plain names ≡ true → All IsPlain names
all_plain-All [] h = tt
all_plain-All (s ∷ rest) h =
    let (here, later) = both (lacks unit s && lacks bar s) (all_plain rest) h in
    let (no_unit, no_bar) = both (lacks unit s) (lacks bar s) here in
    ((lacks-Lacks unit s no_unit, lacks-Lacks bar s no_bar), all_plain-All rest later)

abbrev names_plain : List String → Bool
names_plain [] = false
names_plain (s ∷ rest) = all_plain (s ∷ rest)

names_plain-PlainNames : (names : List String) → names_plain names ≡ true → PlainNames names
names_plain-PlainNames [] h = ground arith
names_plain-PlainNames (s ∷ rest) h = all_plain-All (s ∷ rest) h

abbrev rules_plain : List PolicyRule → Bool
rules_plain [] = true
rules_plain (rule ∷ rest) =
    (names_plain rule.api_groups && names_plain rule.resources) && rules_plain rest

rules_plain-All : (rules : List PolicyRule) → rules_plain rules ≡ true → All IsPlainRule rules
rules_plain-All [] h = tt
rules_plain-All (rule ∷ rest) h =
    let (here, later) =
      both (names_plain rule.api_groups && names_plain rule.resources) (rules_plain rest) h in
    let (groups, resources) =
      both (names_plain rule.api_groups) (names_plain rule.resources) here in
    (
      (
        names_plain-PlainNames rule.api_groups groups,
        names_plain-PlainNames rule.resources resources,
      ),
      rules_plain-All rest later,
    )

pub built_in-IsPlainRule :
    {W F O : Type 0} (p : Platform W F) (k : Kit O) (codecs : Codecs W)
    (context : Option (Client W O))
    → All IsPlainRule (required (built_in p k codecs context))
unfolding argocd_suspend k8s_annotate mesh_shift network_isolate notify_slack
built_in-IsPlainRule p k codecs context =
    rules_plain-All (required (built_in p k codecs context)) refl
