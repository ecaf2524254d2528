-- ===== src/Plugins/Slack.antt =====
-- plugins/notify-slack: a message to a Slack webhook. The decoding of its params and the encoding of
-- the payload are encoding/json's; `post` is the request and its answer's status code, or an error
-- of building or sending it.
use reactive_policy.Common.{
  ℤ, pos, leb_ℤ, String, [], ◌∷◌, Option, none, some, Bool, false, ◌||◌, Assoc, lookup, insert,
  Error, ErrorKind, Fallible, ok, err, str_eq, if◌then◌else◌,
}
use reactive_policy.Api.{ResultStatus, RawParams}
use reactive_policy.Platform.{Platform, Arg, wrap}
use reactive_policy.Action.Types.{Value, Details, Result, ExecuteInput, Plugin}
use reactive_policy.Plugins.Kit.{
  Client, Kit, Attempt, ◌>>=◌, lift, or_else, permanent, invalid_params, client_from, execute_with,
  unmarshal, validate_template, render_template, rejected,
}

-- params and secretRef
pub record SlackParams : Type 0 where
  pub secret_name : String
  pub secret_key : String
  pub channel : String
  pub severity : String
  pub template : String

abbrev pub default_message : String
default_message =
    "[reactive-policy] *{{ .PolicyName }}* in `{{ .Namespace }}` triggered (severity: {{ .Severity }}) — metric value `{{ .MetricValue }}` at {{ .Timestamp }}"

-- validSeverities
abbrev pub is_severity : String → Bool
is_severity s = str_eq s "info" || str_eq s "warning" || str_eq s "critical"

-- mergeTemplateData
unfoldable pub merge_template_data : Details → String → Details
unfolding insert
merge_template_data base severity = insert "Severity" (Value.text severity) base

abbrev pub payload : String → String → Assoc String
payload text channel =
    if str_eq channel "" then ("text", text) ∷ [] else ("text", text) ∷ ("channel", channel) ∷ []

abbrev pub value_or_empty : Option String → String
value_or_empty none = ""
value_or_empty (some value) = value

-- The value of a key of the secret, "" if there is none
abbrev pub secret_value : String → Assoc String → String
secret_value key values = value_or_empty (lookup key values)

module _ {W F O : Type 0} (p : Platform W F) (k : Kit O) (decode : String → Fallible SlackParams)
    (encode : Assoc String → Fallible String) (build : String → String → Option Error)
    (send : String → String → W → Fallible ℤ × W) (context : Option (Client W O)) where
  -- plugin.Validate
  unfoldable pub validate_slack : RawParams → Option Error
  unfolding unmarshal validate_template
  validate_slack raw = elim (unmarshal p k decode raw) [
    | err e ↦ some e
    | ok params ↦
        if str_eq params.secret_name "" || str_eq params.secret_key ""
        then some
            (invalid_params p "%w: webhookSecretRef.name and webhookSecretRef.key are required" [])
        else if str_eq params.severity "" || is_severity params.severity
        then (if str_eq params.template ""
            then none
            else rejected p (validate_template p k params.template))
        else some (invalid_params p "%w: severity must be one of info, warning, critical" [])
  ]

  abbrev on_answer : Fallible ℤ → Option Error
  on_answer (err e) = some (wrap p "posting to slack: %w" [] e)
  on_answer (ok status) =
      if leb_ℤ (pos 300) status
      then some (permanent p "%w: slack returned status %d" (Arg.number status ∷ []))
      else none

  abbrev send_body : String → String → W → Option Error × W
  send_body url body w = elim (build url body) [
    | some e ↦ (some (wrap p "building slack request: %w" [] e), w)
    | none ↦ (on_answer (send url body w).0, (send url body w).1)
  ]

  -- postMessage
  unfoldable pub post_message : String → String → String → W → Option Error × W
  post_message url text channel w = elim (encode (payload text channel)) [
    | err e ↦ (some (wrap p "encoding slack payload: %w" [] e), w)
    | ok body ↦ send_body url body w
  ]

  abbrev posted : (W → Option Error × W) → Attempt W (Unit {0})
  posted m w = elim (m w).0 [ none ↦ (ok tt, (m w).1) | some e ↦ (err e, (m w).1) ]

  -- The webhook's address, read from the secret in the policy's namespace
  unfoldable pub webhook_url : Client W O → String → SlackParams → Attempt W String
  unfolding lookup
  webhook_url c namespace params w =
      let (answer, w') = c.get_secret namespace params.secret_name w in
      elim answer [
        | err e ↦ (
          err (
              wrap p "reading webhook secret %s/%s: %w"
                (Arg.text namespace ∷ Arg.text params.secret_name ∷ []) e),
          w',
        )
        | ok values ↦
            if str_eq (secret_value params.secret_key values) ""
            then (
              err (
                  invalid_params p "%w: secret %q has no value at key %q"
                    (Arg.text params.secret_name ∷ Arg.text params.secret_key ∷ [])),
              w',
            )
            else (ok (secret_value params.secret_key values), w')
      ]

  -- plugin.Execute
  unfoldable pub slack_body : ExecuteInput → Result → Attempt W Result
  unfolding unmarshal webhook_url render_template merge_template_data post_message
  slack_body input res = do
    params ← lift (unmarshal p k decode input.params)
    let severity = or_else params.severity "warning"
    c ← client_from p context
    url ← webhook_url c input.namespace params
    text ← lift (
        render_template p k (or_else params.template default_message)
          (merge_template_data input.template_data severity))
    done ← posted (post_message url text params.channel)
    lift (
        ok (record res {
          status = ResultStatus.succeeded;
          message = p.sprintf "notified slack (severity %s)" (Arg.text severity ∷ []);
          details = ("severity", Value.text severity) ∷ ("channel", Value.text params.channel) ∷ [];
        }))

  abbrev pub err_not_reversible : Error
  err_not_reversible = record {
    kind = ErrorKind.not_reversible;
    message = "action is not reversible";
  }

  unfoldable pub notify_slack : Plugin W
  unfolding validate_slack slack_body execute_with
  notify_slack = record {
    name = "notify.slack";
    description = "Sends a message to a Slack channel via an incoming webhook.";
    validate = validate_slack;
    execute = execute_with p "notify.slack" slack_body;
    reverse = λ prev w. (some err_not_reversible, w);
    is_reversible = false;
    required_permissions =
        record { api_groups = "" ∷ []; resources = "secrets" ∷ []; verbs = "get" ∷ [] } ∷ [];
  }
