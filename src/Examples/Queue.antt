-- ===== src/Examples/Queue.antt =====
-- The queue before the database, and the tracker of watched policies, at work.
use reactive_policy.Common.{
  pos, seconds, String, List, [], ◌∷◌, none, some, true, length, ◌≡◌, refl,
}
use reactive_policy.Api.{ResultStatus}
use reactive_policy.Sink.{Event}
use reactive_policy.Sink.Postgres.{PostgresSink, new_sink, record_triggers, send_on_closed}
use reactive_policy.Sink.Postgres.Delivery.{Happening, all_happen, owed, Sound, all_happen-Sound}
use reactive_policy.Sink.Postgres.Closed.{closed_lem}
use reactive_policy.Metrics.{names_in}
use reactive_policy.Metrics.Tracker.{
  Call, after_calls, mem, is_watched, Distinct, gauge, after_calls_lem,
}

abbrev pub event : Event
event = record {
  audit_uid = "a1";
  audit_name = "slow-web-1";
  audit_namespace = "shop";
  policy_ref = "slow-web";
  policy_uid = "u1";
  triggered_at = seconds 100;
  metric_value = "7";
  action_index = pos 0;
  action_id = "";
  plugin = "shift";
  target_api_version = "apps/v1";
  target_kind = "Deployment";
  target_namespace = "shop";
  target_name = "web";
  status = ResultStatus.succeeded;
  message = "";
  reversible = true;
  details_json = none;
}

-- Two batches for a queue of one: the second comes too early, a third after the worker's turn.
abbrev busy : List Happening
busy =
    Happening.triggers (event ∷ [])
    ∷ Happening.triggers (event ∷ event ∷ [])
    ∷ Happening.worker
    ∷ Happening.triggers (event ∷ [])
    ∷ []

all_happen-Sound_example :
    Sound (all_happen busy (new_sink (pos 1))).1
    × (owed (all_happen busy (new_sink (pos 1))).1 ≡ (all_happen busy (new_sink (pos 1))).0)
all_happen-Sound_example = all_happen-Sound (pos 1) busy

abbrev shut : PostgresSink
shut = record (new_sink (pos 4)) { closed = true }

closed_lem_example :
    ((all_happen busy shut).0 ≡ [])
    × (record_triggers (event ∷ []) (all_happen busy shut).1
        ≡ (some send_on_closed, (all_happen busy shut).1))
closed_lem_example = closed_lem busy shut event [] refl

-- Newest first: one policy is tracked twice, and another one was deleted.
abbrev calls : List Call
calls =
    Call.untrack "shop" "gone"
    ∷ Call.track "shop" "slow-web"
    ∷ Call.track "shop" "gone"
    ∷ Call.track "shop" "slow-web"
    ∷ []

after_calls_lem_example :
    let names = names_in "shop" (after_calls calls) in
    ((n : String) → mem n names ≡ is_watched "shop" n calls)
    × Distinct names
    × (gauge "shop" (after_calls calls).updates ≡ length names)
after_calls_lem_example = after_calls_lem "shop" calls
