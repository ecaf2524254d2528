-- ===== src/Plugins/Kit.antt =====
-- What the plugins use and the repository does not implement: the Kubernetes client in their
-- context, the helpers of the package `unstructured`, JSON, text templates and HTTP. `O` is an
-- unstructured object. With it the params of internal/action/params.go and the templates of
-- internal/action/template.go, and the form that every Execute shares.
use reactive_policy.Common.{
  ℕ, ℤ, Time, String, List, [], ◌∷◌, Option, none, some, Assoc, Error, ErrorKind, Fallible, ok, err,
  Bool, false, is_target_not_found, str_eq, if◌then◌else◌,
}
use reactive_policy.Api.{ResultStatus, RawParams}
use reactive_policy.Platform.{Platform, Arg, wrap}
use reactive_policy.Action.Types.{Target, Value, Fields, Details, Result, ExecuteInput}

pub data PolicyType : Type 0 where
  ingress egress : PolicyType

pub data Protocol : Type 0 where
  tcp udp sctp : Protocol

-- A networkingv1 rule: it lets through what goes to one of its ports.
pub record PortRule : Type 0 where
  pub ports : List (Protocol × ℕ)

-- networkingv1.NetworkPolicy, as far as the plugins fill it
pub record NetworkPolicy : Type 0 where
  pub name : String
  pub namespace : String
  pub labels : Assoc String
  pub annotations : Assoc String
  pub pod_selector : Assoc String
  pub policy_types : List PolicyType
  pub ingress_rules : List PortRule
  pub egress_rules : List PortRule

-- client.Client: for unstructured objects, asked for by API version, kind, namespace and name; for
-- network policies; and for the contents of a secret.
pub record Client (W O : Type 0) : Type 0 where
  pub get : String → String → String → String → W → Fallible O × W
  pub update : O → W → Option Error × W
  pub get_network_policy : String → String → W → Fallible NetworkPolicy × W
  pub create_network_policy : NetworkPolicy → W → Option Error × W
  pub update_network_policy : NetworkPolicy → W → Option Error × W
  pub delete_network_policy : String → String → W → Option Error × W
  pub get_secret : String → String → W → Fallible (Assoc String) × W

-- The package `unstructured`, text/template and encoding/json. A path is a list of field names, and
-- a field that is not found is `none`.
pub record Kit (O : Type 0) : Type 0 where
  pub annotations : O → Option (Assoc String)  -- `none` is the nil map
  pub set_annotations : Assoc String → O → O
  pub labels : O → Assoc String
  pub nested_slice : List String → O → Fallible (Option (List Value))
  pub set_nested_slice : List String → List Value → O → Fallible O
  pub nested_map : List String → O → Fallible (Option Fields)
  pub nested_string_map : List String → O → Fallible (Option (Assoc String))
  pub nested_field_copy : List String → O → Fallible (Option Value)
  pub set_nested_field : List String → Value → O → Fallible O
  pub remove_nested_field : List String → O → O
  pub parse_template : String → Option Error
  pub execute_template : String → Details → Fallible String
  pub marshal_raw : Assoc String → Fallible String
  pub float_to_int64 : ℕ → ℤ

-- A computation that fails, or changes the outside state.
abbrev pub Attempt : Type 0 → Type 0 → Type 0
Attempt W A = W → Fallible A × W

infixl 5 ◌>>=◌
unfoldable pub ◌>>=◌ : {W A B : Type 0} → Attempt W A → (A → Attempt W B) → Attempt W B
◌>>=◌ m f w = elim (m w).0 [ ok a ↦ f a (m w).1 | err e ↦ (err e, (m w).1) ]

abbrev pub lift : {W A : Type 0} → Fallible A → Attempt W A
lift r w = (r, w)

-- An update whose error is wrapped.
abbrev pub checked : {W : Type 0} → (W → Option Error × W) → (Error → Error) → Attempt W (Unit {0})
checked m wrapped w = elim (m w).0 [ none ↦ (ok tt, (m w).1) | some e ↦ (err (wrapped e), (m w).1) ]

-- A text of a result's details: `text, _ := details[key].(string)`.
abbrev pub text_of : Option Value → String
text_of (some (Value.text s)) = s
text_of _ = ""

-- `if s == "" { s = other }`
abbrev pub or_else : String → String → String
or_else s other = if str_eq s "" then other else s

-- errors.Is(err, action.ErrTargetNotFound) on an answer
abbrev pub is_gone : {A : Type 0} → Fallible A → Bool
is_gone (ok a) = false
is_gone (err e) = is_target_not_found e

-- The result that an Execute starts with
abbrev pub started : String → Target → Time → Result
started name target ts = record {
  action_id = "";
  plugin_name = name;
  target = target;
  timestamp = some ts;
  status = ResultStatus.unset;
  message = "";
  details = [];
}

-- What it returns once its body has ended: a failure sets the status, and the message and the
-- details stay empty.
abbrev pub finished : Result → Fallible Result → Result × Option Error
finished res (ok done) = (done, none)
finished res (err e) = (record res { status = ResultStatus.failed }, some e)

module _ {W F : Type 0} (p : Platform W F) where
  abbrev pub error_of : ErrorKind → String → String → List Arg → Error
  error_of kind class format args = record {
    kind = kind;
    message = p.sprintf format (Arg.text class ∷ args);
  }

  -- fmt.Errorf with ErrPermanent, ErrInvalidParams and ErrTargetNotFound as its first argument
  abbrev pub permanent : String → List Arg → Error
  permanent = error_of ErrorKind.permanent "permanent error; do not retry"

  abbrev pub invalid_params : String → List Arg → Error
  invalid_params = error_of ErrorKind.invalid_params "invalid params"

  abbrev pub target_not_found : String → List Arg → Error
  target_not_found = error_of ErrorKind.target_not_found "target not found"

  -- `%w: %w` with ErrInvalidParams first
  abbrev pub rejected : Option Error → Option Error
  rejected none = none
  rejected (some e) = some (invalid_params "%w: %w" (Arg.text e.message ∷ []))

  -- ClientFrom, and the check for nil
  abbrev pub client_from : {O : Type 0} → Option (Client W O) → Attempt W (Client W O)
  client_from none = lift (err (permanent "%w: no Kubernetes client available" []))
  client_from (some c) = lift (ok c)

  unfoldable pub execute_with :
      String
      → (ExecuteInput → Result → Attempt W Result)
      → ExecuteInput
      → W
      → (Result × Option Error) × W
  execute_with name body input w =
      let (ts, w') = p.now w in
      let res = started name input.target ts in
      let (out, after) = body input res w' in (finished res out, after)

-- The values of a map that are not empty texts
abbrev with_value : Assoc String → Assoc String
with_value [] = []
with_value ((key, raw) ∷ rest) =
    if str_eq raw "" then with_value rest else (key, raw) ∷ with_value rest

abbrev entries : RawParams → Assoc String
entries none = []
entries (some params) = with_value params

module _ {W F O : Type 0} (p : Platform W F) (k : Kit O) where
  -- Unmarshal; `decode` is json.Unmarshal into the plugin's struct
  unfoldable pub unmarshal : {A : Type 0} → (String → Fallible A) → RawParams → Fallible A
  unmarshal decode params = elim (k.marshal_raw (entries params)) [
    | err e ↦ err (wrap p "encoding params: %w" [] e)
    | ok raw ↦ elim (decode raw) [
      | err e ↦ err (invalid_params p "%w: %w" (Arg.text e.message ∷ []))
      | ok params ↦ ok params
    ]
  ]

  -- ValidateTemplate
  unfoldable pub validate_template : String → Option Error
  validate_template tmpl = elim (k.parse_template tmpl) [
    | some e ↦ some (wrap p "parsing template: %w" [] e)
    | none ↦ none
  ]

  -- RenderTemplate
  unfoldable pub render_template : String → Details → Fallible String
  render_template tmpl values = elim (k.parse_template tmpl) [
    | some e ↦ err (wrap p "parsing template: %w" [] e)
    | none ↦ elim (k.execute_template tmpl values) [
      | err e ↦ err (wrap p "executing template: %w" [] e)
      | ok text ↦ ok text
    ]
  ]

module _ {W F O : Type 0} (p : Platform W F) where
  -- getTarget, getApplication and getRoute; `what` names the object in the errors
  unfoldable pub get_object : Client W O → String → String → Target → Attempt W O
  get_object c missing failing target w =
      let (answer, w') = c.get target.api_version target.kind target.namespace target.name w in
      elim answer [
        | ok obj ↦ (ok obj, w')
        | err e ↦ elim e.kind [
          | ErrorKind.not_found ↦ (
            err (
                target_not_found p missing (Arg.text target.namespace ∷ Arg.text target.name ∷ [])),
            w',
          )
          | _ ↦ (err (wrap p failing (Arg.text target.namespace ∷ Arg.text target.name ∷ []) e), w')
        ]
      ]
