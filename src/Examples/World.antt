-- ===== src/Examples/World.antt =====
-- A cluster with one policy, one audit record, a clock that stands still unless it is moved, and
-- two plugins.
use reactive_policy.Common.{
  ℤ, pos, ltb_ℤ, leb_ℤ, Time, seconds, String, List, [], ◌∷◌, Option, none, some, Bool, true, false,
  Assoc, Error, ErrorKind, ok, err, ◌&&◌,
}
use reactive_policy.Api.{
  ReactivePolicy, ReactivePolicySpec, ActionAudit, ActionRecord, ApprovalGate, ApprovalDecision,
  ApprovalPhase, AuditTarget, ResultStatus, ObjectMeta, PolicyState, MetricSource,
  ComparisonOperator, FailurePolicy,
}
use reactive_policy.Api.Policy.{Action}
use reactive_policy.Metrics.{Metrics}
use reactive_policy.Platform.{Platform}
use reactive_policy.Action.Types.{Target, Result, Plugin}
use reactive_policy.Controller.System.{System, Wiring}

pub record World : Type 0 where
  pub clock : Time
  pub policy : ReactivePolicy
  pub audit : ActionAudit
  pub trail : List ActionAudit
  pub calls : List String

abbrev pub failure : Error
failure = record { kind = ErrorKind.other; message = "failed" }

abbrev pub cluster : Platform World ℤ
cluster = record {
  now = λ w. (w.clock, w);
  get_policy = λ namespace name w. (ok w.policy, w);
  get_audit = λ namespace name w. (ok w.audit, w);
  list_audits = λ namespace name w. (ok w.trail, w);
  list_objects = λ version kind namespace selector w. (ok ((namespace, "web") ∷ []), w);
  update_policy_status = λ policy w. (ok policy, record w { policy = policy });
  create_audit = λ audit w. (ok audit, record w { trail = audit ∷ w.trail });
  update_audit = λ audit w. (ok audit, record w { audit = audit });
  update_audit_status = λ audit w. (ok audit, record w { audit = audit });
  delete_audit = λ audit w. (none, w);
  selector_error = λ selector. none;
  set_condition = λ c conditions. c ∷ conditions;
  sprintf = λ format arguments. format;
  marshal = λ details. some "{}";
  unmarshal = λ raw. some [];
  format_time = λ t. "now";
  parse_duration = λ text. err failure;
  parse_float = λ text. ok (pos 5);
  format_float = λ x. "7";
  float_lt = ltb_ℤ;
  float_le = leb_ℤ;
  float_eq = λ a b. leb_ℤ a b && leb_ℤ b a;
}

abbrev pub meta : String → ObjectMeta
meta name = record {
  name = name;
  generate_name = "";
  namespace = "shop";
  uid = "u1";
  labels = [];
  generation = pos 1;
  creation_timestamp = pos 0;
}

abbrev pub web : Target
web = record { api_version = "apps/v1"; kind = "Deployment"; name = "web"; namespace = "shop" }

abbrev pub web_record : AuditTarget
web_record = record {
  api_version = "apps/v1";
  kind = "Deployment";
  name = "web";
  namespace = "shop";
}

abbrev pub action : String → FailurePolicy → Bool → Action
action plugin on_failure held = record {
  plugin = plugin;
  params = none;
  on_failure = on_failure;
  requires_approval = held;
}

-- Shift, shift, and behind the approval gate page.
abbrev pub pipeline : List Action
pipeline =
    action "shift" FailurePolicy.continue false
    ∷ action "shift" FailurePolicy.rollback false
    ∷ action "page" FailurePolicy.stop true
    ∷ []

abbrev pub spec_of : List Action → ReactivePolicySpec
spec_of actions = record {
  target = record {
    selector = record { match_labels = []; match_expressions = [] };
    kinds = record { api_version = "apps/v1"; kind = "Deployment" } ∷ [];
    max_resources = none;
  };
  observe = record {
    source = MetricSource.prometheus;
    endpoint = "http://prometheus";
    query = "up";
    threshold = "5";
    operator = ComparisonOperator.greater_than;
    duration = seconds 60;
    poll_interval = pos 0;
  };
  actions = actions;
  cooldown = seconds 300;
  max_triggers_per_hour = some (pos 2);
  allow_irreversible = true;
  approval_timeout = pos 0;
  audit = some (record { retention = "293y" });
}

abbrev pub policy_with : List Action → String → Option Time → ReactivePolicy
policy_with actions pending last = record {
  metadata = meta "slow-web";
  spec = spec_of actions;
  status = record {
    state = PolicyState.watching;
    last_evaluated_at = none;
    last_triggered_at = last;
    trigger_count = pos 0;
    current_metric_value = "7";
    pending_gate_ref = pending;
    conditions = [];
  };
}

abbrev pub gate : ApprovalDecision → String → ApprovalGate
gate decision decided_by = record {
  action_index = pos 2;
  pending_plugins = "page" ∷ [];
  targets = web_record ∷ [];
  expires_at = seconds 1800;
  decision = decision;
  decided_by = decided_by;
  decided_at = none;
  reason = "";
}

abbrev pub shifted : ActionRecord
shifted = record {
  index = pos 0;
  action_id = "";
  plugin = "shift";
  target = web_record;
  status = ResultStatus.succeeded;
  message = "";
  reversible = true;
  details = none;
}

abbrev pub audit_with : ApprovalPhase → Option ApprovalGate → ActionAudit
audit_with phase gate = record {
  metadata = meta "slow-web-1";
  spec = record {
    policy_ref = "slow-web";
    policy_uid = "u1";
    triggered_at = pos 0;
    metric_value = "7";
    actions = shifted ∷ [];
    revert_requested = false;
    gate = gate;
  };
  status = record {
    reverted = false;
    reverted_at = none;
    revert_results = [];
    approval_phase = phase;
    resumed_at = none;
    conditions = [];
  };
}

abbrev pub called : String → World → World
called what w = record w { calls = what ∷ w.calls }

abbrev pub done : String → Result
done plugin = record {
  action_id = "";
  plugin_name = plugin;
  target = web;
  timestamp = none;
  status = ResultStatus.succeeded;
  message = "";
  details = [];
}

abbrev pub plugin_named : String → Bool → Plugin World
plugin_named name reversible = record {
  name = name;
  description = name;
  validate = λ params. none;
  execute = λ input w. ((done name, none), called name w);
  reverse = λ res w. (none, called "undo" w);
  is_reversible = reversible;
  required_permissions = [];
}

abbrev pub plugins : Assoc (Plugin World)
plugins = ("shift", plugin_named "shift" true) ∷ ("page", plugin_named "page" false) ∷ []

abbrev pub wiring : Wiring World ℤ
wiring = record {
  plugins = plugins;
  prometheus = λ endpoint. ok λ query w. (ok (pos 7), w);
  sink = none;
}

abbrev pub no_metrics : Metrics
no_metrics = record { updates = []; tracked = [] }

abbrev pub world : ReactivePolicy → ActionAudit → World
world policy audit = record {
  clock = seconds 100;
  policy = policy;
  audit = audit;
  trail = [];
  calls = [];
}

abbrev pub system : World → System World
system w = record { run = record { outside = w; metrics = no_metrics }; window = []; limiter = [] }
