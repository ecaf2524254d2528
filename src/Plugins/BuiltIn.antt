-- ===== src/Plugins/BuiltIn.antt =====
-- The plugins that cmd/main.go links in, each of which its init function registers in the default
-- registry of internal/action/registry.go.
use reactive_policy.Common.{ℤ, String, List, [], ◌∷◌, Option, none, some, Assoc, Error, Fallible}
use reactive_policy.Platform.{Platform}
use reactive_policy.Action.Types.{Value, Plugin}
use reactive_policy.Action.Registry.{register}
use reactive_policy.Plugins.Kit.{Client, Kit}
use reactive_policy.Plugins.MeshShift.Weights.{MeshParams, BackendChange}
use reactive_policy.Plugins.MeshShift.Shift.{mesh_shift}
use reactive_policy.Plugins.Isolate.Policy.{IsolateParams, network_isolate}
use reactive_policy.Plugins.Annotate.{AnnotateParams, k8s_annotate}
use reactive_policy.Plugins.Suspend.{argocd_suspend}
use reactive_policy.Plugins.Slack.{SlackParams, notify_slack}

-- encoding/json and net/http at the types of the plugins
pub record Codecs (W : Type 0) : Type 0 where
  pub mesh_params : String → Fallible MeshParams
  pub changes : Value → Fallible (List BackendChange)
  pub isolate_params : String → Fallible IsolateParams
  pub annotate_params : String → Fallible AnnotateParams
  pub reason : String → Fallible String
  pub slack_params : String → Fallible SlackParams
  pub encode_payload : Assoc String → Fallible String
  pub new_request : String → String → Option Error
  pub send : String → String → W → Fallible ℤ × W

module _ {W F O : Type 0} (p : Platform W F) (k : Kit O) (codecs : Codecs W)
    (context : Option (Client W O)) where
  abbrev pub built_in : List (Plugin W)
  built_in =
      argocd_suspend p k codecs.reason context
      ∷ k8s_annotate p k codecs.annotate_params context
      ∷ mesh_shift p k codecs.mesh_params codecs.changes context
      ∷ network_isolate p k codecs.isolate_params context
      ∷ notify_slack p k codecs.slack_params codecs.encode_payload codecs.new_request codecs.send
          context
      ∷ []

abbrev pub register_all : {W : Type 0} → List (Plugin W) → Option (Assoc (Plugin W))
register_all [] = some []
register_all (plugin ∷ rest) = elim (register_all rest) [
  | none ↦ none
  | some plugins ↦ register plugin plugins
]
