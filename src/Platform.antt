-- ===== src/Platform.antt =====
-- What the operator uses and does not implement: the Kubernetes API and its helpers, the clock,
-- Go's formatting and JSON, and floating point numbers. Each is a field of a record over the
-- outside state `W` and the type `F` of float64, and an argument of every definition that uses it.
-- A call takes the outside state to its answer and the state afterwards, in which anything may have
-- happened that other processes do meanwhile.
use reactive_policy.Common.{
  ℕ, ℤ, Time, Duration, String, List, [], ◌∷◌, ◌++◌, Option, Bool, Error, Fallible,
}
use reactive_policy.Api.{LabelSelector, Condition, ReactivePolicy, ActionAudit}
use reactive_policy.Action.Types.{Details}

-- An argument of fmt.Sprintf.
pub data Arg : Type 0 where
  text : String → Arg
  number : ℤ → Arg
  duration : Duration → Arg

pub record Platform (W F : Type 0) : Type 0 where
  pub now : W → Time × W
  pub get_policy : String → String → W → Fallible ReactivePolicy × W
  pub get_audit : String → String → W → Fallible ActionAudit × W
  -- List of audits in a namespace with the policy label
  pub list_audits : String → String → W → Fallible (List ActionAudit) × W
  -- List of unstructured objects: API version, list kind, namespace, selector; the answer has the
  -- namespace and the name of each item
  pub list_objects :
      String → String → String → LabelSelector → W → Fallible (List (String × String)) × W
  pub update_policy_status : ReactivePolicy → W → Fallible ReactivePolicy × W
  pub create_audit : ActionAudit → W → Fallible ActionAudit × W
  pub update_audit : ActionAudit → W → Fallible ActionAudit × W
  pub update_audit_status : ActionAudit → W → Fallible ActionAudit × W
  pub delete_audit : ActionAudit → W → Option Error × W
  -- the error of metav1.LabelSelectorAsSelector
  pub selector_error : LabelSelector → Option Error
  -- meta.SetStatusCondition
  pub set_condition : Condition → List Condition → List Condition
  pub sprintf : String → List Arg → String
  pub marshal : Details → Option String
  pub unmarshal : String → Option Details
  pub format_time : Time → String
  -- time.ParseDuration, on the code points of its text
  pub parse_duration : List ℕ → Fallible Duration
  -- strconv.ParseFloat (after TrimSpace), FormatFloat, and the comparisons of float64
  pub parse_float : String → Fallible F
  pub format_float : F → String
  pub float_lt : F → F → Bool
  pub float_le : F → F → Bool
  pub float_eq : F → F → Bool

-- fmt.Errorf with %w: the class of the wrapped error stays.
unfoldable pub wrap : {W F : Type 0} → Platform W F → String → List Arg → Error → Error
wrap p format args e = record e { message = p.sprintf format (args ++ Arg.text e.message ∷ []) }
