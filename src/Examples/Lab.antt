-- ===== src/Examples/Lab.antt =====
-- A cluster with one object, an HTTPRoute that the annotations are on as well, and its network
-- policies; and the libraries that the plugins use, as far as the examples need them.
use reactive_policy.Common.{
  ℤ, pos, ltb_ℤ, leb_ℤ, seconds, String, List, [], ◌∷◌, Option, none, some, Assoc, Error, ErrorKind,
  Fallible, Bool, false, ok, err, ◌&&◌,
}
use reactive_policy.Platform.{Platform}
use reactive_policy.Action.Types.{Value, Items, Fields, ExecuteInput}
use reactive_policy.Action.Values.{member, delete_member}
use reactive_policy.Plugins.Kit.{Client, Kit, NetworkPolicy}
use reactive_policy.Plugins.MeshShift.Weights.{BackendChange}
use reactive_policy.Sink.Postgres.Writer.{Tables}
use reactive_policy.Plugins.BuiltIn.{Codecs}

pub record Thing : Type 0 where
  pub annotated : Option (Assoc String)
  pub rules : Option (List Value)
  pub policy : Option Value

abbrev as_map : Option Value → Option Fields
as_map (some (Value.object fields)) = some fields
as_map _ = none

abbrev pub automated_of : Option Value → Option Fields
automated_of (some (Value.object policy)) = as_map (member "automated" policy)
automated_of _ = none

abbrev pub manual : Option Value → Option Value
manual (some (Value.object policy)) = some (Value.object (delete_member "automated" policy))
manual policy = policy

pub record Lab : Type 0 where
  pub thing : Thing
  pub policies : List NetworkPolicy
  pub store : Tables

abbrev broken : Error
broken = record { kind = ErrorKind.other; message = "broken" }

abbrev missing : Error
missing = record { kind = ErrorKind.not_found; message = "not found" }

abbrev pub lab_platform : Platform Lab ℤ
lab_platform = record {
  now = λ w. (seconds 100, w);
  get_policy = λ namespace name w. (err missing, w);
  get_audit = λ namespace name w. (err missing, w);
  list_audits = λ namespace name w. (ok [], w);
  list_objects = λ version kind namespace selector w. (ok [], w);
  update_policy_status = λ policy w. (ok policy, w);
  create_audit = λ audit w. (ok audit, w);
  update_audit = λ audit w. (ok audit, w);
  update_audit_status = λ audit w. (ok audit, w);
  delete_audit = λ audit w. (none, w);
  selector_error = λ selector. none;
  set_condition = λ c conditions. c ∷ conditions;
  sprintf = λ format arguments. format;
  marshal = λ details. some "{}";
  unmarshal = λ raw. some [];
  format_time = λ t. "now";
  parse_duration = λ text. err broken;
  parse_float = λ text. ok (pos 5);
  format_float = λ x. "7";
  float_lt = ltb_ℤ;
  float_le = leb_ℤ;
  float_eq = λ a b. leb_ℤ a b && leb_ℤ b a;
}

abbrev pub lab_kit : Kit Thing
lab_kit = record {
  annotations = λ o. o.annotated;
  set_annotations = λ m o. record o { annotated = some m };
  labels = λ o. ("app", "web") ∷ [];
  nested_slice = λ path o. ok o.rules;
  set_nested_slice = λ path rules o. ok (record o { rules = some rules });
  nested_map = λ path o. ok (automated_of o.policy);
  nested_string_map = λ path o. ok none;
  nested_field_copy = λ path o. ok o.policy;
  set_nested_field = λ path value o. ok (record o { policy = some value });
  remove_nested_field = λ path o. record o { policy = manual o.policy };
  parse_template = λ tmpl. none;
  execute_template = λ tmpl values. ok tmpl;
  marshal_raw = λ raw. ok "{}";
  float_to_int64 = λ bits. pos 0;
}

abbrev pub lab_client : Client Lab Thing
lab_client = record {
  get = λ version kind namespace name w. (ok w.thing, w);
  update = λ o w. (none, record w { thing = o });
  get_network_policy = λ namespace name w. (err missing, w);
  create_network_policy = λ np w. (none, record w { policies = np ∷ w.policies });
  update_network_policy = λ np w. (none, record w { policies = np ∷ w.policies });
  delete_network_policy = λ namespace name w. (none, record w { policies = [] });
  get_secret = λ namespace name w. (ok (("url", "http://hook") ∷ []), w);
}

abbrev fields_of : Value → Fields
fields_of (Value.object fields) = fields
fields_of _ = Fields.end

abbrev number_of : Option Value → ℤ
number_of (some (Value.number n)) = n
number_of _ = pos 0

abbrev bool_of : Option Value → Bool
bool_of (some (Value.bool b)) = b
bool_of _ = false

abbrev pub read_change : Value → BackendChange
read_change value =
    let fields = fields_of value in
    record {
      rule = number_of (member "rule" fields);
      ref = number_of (member "ref" fields);
      old_weight = number_of (member "weight" fields);
      had = bool_of (member "had" fields);
    }

abbrev pub read_items : Items → List BackendChange
read_items Items.nil = []
read_items (Items.cons value rest) = read_change value ∷ read_items rest

abbrev pub read_changes : Value → Fallible (List BackendChange)
read_changes (Value.array items) = ok (read_items items)
read_changes _ = err broken

abbrev pub codecs : Codecs Lab
codecs = record {
  mesh_params = λ raw.
      ok (record {
        route_name = "route";
        route_namespace = "";
        backend = "api";
        weight_param = none;
      });
  changes = read_changes;
  isolate_params =
      λ raw. ok (record { pod_selector = []; direction_param = "egress"; allow_dns_param = none });
  annotate_params = λ raw. ok (record { key = "note"; template = "seen"; overwrite = none });
  reason = λ raw. ok "";
  slack_params = λ raw. ok (record {
    secret_name = "hook";
    secret_key = "url";
    channel = "";
    severity = "";
    template = "";
  });
  encode_payload = λ payload. ok "{}";
  new_request = λ url body. none;
  send = λ url body w. (ok (pos 200), w);
}

abbrev ref : String → Fields → Value
ref name rest = Value.object (Fields.field "name" (Value.text name) rest)

abbrev weighing : ℤ → Fields
weighing n = Fields.field "weight" (Value.number n) Fields.end

-- Two rules: in the first the backend has a weight, in the second it has none.
abbrev pub rules : List Value
rules =
    Value.object (
      Fields.field "backendRefs"
        (Value.array (
          Items.cons (ref "web" (weighing (pos 9)))
            (Items.cons (ref "api" (weighing (pos 3))) Items.nil)))
        Fields.end)
    ∷ Value.object (
        Fields.field "backendRefs" (Value.array (Items.cons (ref "api" Fields.end) Items.nil))
          Fields.end)
    ∷ []

abbrev pub route : Thing
route = record {
  annotated = some (("owner", "me") ∷ ("note", "old") ∷ []);
  rules = some rules;
  policy = some (
      Value.object (
        Fields.field "automated" (Value.object Fields.end)
          (Fields.field "retries" (Value.number (pos 2)) Fields.end)));
}

abbrev pub lab : Lab
lab = record { thing = route; policies = []; store = record { executions = []; reverts = [] } }

abbrev pub lab_input : ExecuteInput
lab_input = record {
  target = record { api_version = "v1"; kind = "Thing"; name = "web"; namespace = "shop" };
  params = none;
  policy_name = "slow-web";
  namespace = "shop";
  metric_value = "7";
  timestamp = seconds 100;
  template_data = [];
}

abbrev pub app_input : ExecuteInput
app_input = record lab_input {
  target = record {
    api_version = "argoproj.io/v1alpha1";
    kind = "Application";
    name = "web";
    namespace = "shop";
  };
}
