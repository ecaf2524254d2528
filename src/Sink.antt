-- ===== src/Sink.antt =====
-- internal/audit/sink/sink.go: the events that are forwarded to long-term storage, and the sink's
-- contract as functions on the outside state `W`.
pub mod Postgres
use reactive_policy.Common.{ℤ, Time, String, List, Option, none, Bool, Error}
use reactive_policy.Api.{ResultStatus}

-- `details_json` is `none` where the Go slice is nil.
pub record Event : Type 0 where
  pub audit_uid : String
  pub audit_name : String
  pub audit_namespace : String
  pub policy_ref : String
  pub policy_uid : String
  pub triggered_at : Time
  pub metric_value : String
  pub action_index : ℤ
  pub action_id : String
  pub plugin : String
  pub target_api_version : String
  pub target_kind : String
  pub target_namespace : String
  pub target_name : String
  pub status : ResultStatus
  pub message : String
  pub reversible : Bool
  pub details_json : Option String

pub record RevertEvent : Type 0 where
  pub audit_uid : String
  pub audit_name : String
  pub audit_namespace : String
  pub policy_ref : String
  pub action_index : ℤ
  pub plugin : String
  pub reverted_at : Time
  pub status : ResultStatus
  pub message : String

pub record Sink (W : Type 0) : Type 0 where
  pub record_trigger : List Event → W → Option Error × W
  pub record_revert : List RevertEvent → W → Option Error × W

-- Noop accepts everything and stores nothing.
unfoldable pub noop : (W : Type 0) → Sink W
noop W = record { record_trigger = λ _ w. (none, w); record_revert = λ _ w. (none, w) }
