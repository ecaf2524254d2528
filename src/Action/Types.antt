-- ===== src/Action/Types.antt =====
-- internal/action/interface.go: targets, inputs, results, and the contract of a plugin. A plugin
-- reads and changes the cluster through the client in its context, so it acts on a state `W` that
-- stands for everything outside the operator.
use reactive_policy.Common.{ℕ, ℤ, Time, String, List, Option, Bool, Assoc, Error}
use reactive_policy.Api.{ResultStatus, RawParams}

pub record Target : Type 0 where
  pub api_version : String
  pub kind : String
  pub name : String
  pub namespace : String

-- What Go keeps as `any` in a result's details, in the template data and in an unstructured object:
-- `number` is an int or int64, `float` a float64 by its 64 bits, and `target` the struct.
mutual
  pub data Value : Type 0 where
    null : Value
    bool : Bool → Value
    number : ℤ → Value
    float : ℕ → Value
    text : String → Value
    target : Target → Value
    array : Items → Value
    object : Fields → Value

  pub data Items : Type 0 where
    nil : Items
    cons : Value → Items → Items

  pub data Fields : Type 0 where
    end : Fields
    field : String → Value → Fields → Fields

-- A map[string]any. A nil map and an empty one are read alike by all of the code.
abbrev pub Details : Type 0
Details = Assoc Value

-- `none` is the zero time, which IsZero tells from the others.
pub record Result : Type 0 where
  pub action_id : String
  pub plugin_name : String
  pub target : Target
  pub timestamp : Option Time
  pub status : ResultStatus
  pub message : String
  pub details : Details

pub record ExecuteInput : Type 0 where
  pub target : Target
  pub params : RawParams
  pub policy_name : String
  pub namespace : String
  pub metric_value : String
  pub timestamp : Time
  pub template_data : Details

-- rbacv1.PolicyRule, as far as the plugins fill it.
pub record PolicyRule : Type 0 where
  pub api_groups : List String
  pub resources : List String
  pub verbs : List String

-- The interface `Action`: a value with its methods.
pub record Plugin (W : Type 0) : Type 0 where
  pub name : String
  pub description : String
  pub validate : RawParams → Option Error
  pub execute : ExecuteInput → W → (Result × Option Error) × W
  pub reverse : Result → W → Option Error × W
  pub is_reversible : Bool
  pub required_permissions : List PolicyRule
