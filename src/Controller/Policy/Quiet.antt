-- ===== src/Controller/Policy/Quiet.antt =====
-- A reconcile that finds its policy: the state and the time with which its gates are checked.
use reactive_policy.Common.{Time, String, ok, ◌≡◌, arith}
use reactive_policy.Api.{ReactivePolicy}
use reactive_policy.Metrics.{track_policy}
use reactive_policy.Platform.{Platform}
use reactive_policy.Controller.Limiter.{object_key}
use reactive_policy.Controller.System.{System, Wiring}
use reactive_policy.Controller.Policy.Status.{poll_interval_or_default}
use reactive_policy.Controller.Policy.Gates.{check_gate, reconcile}

module _ {W F : Type 0} (p : Platform W F) (namespace name : String) where
  -- The outside after the policy was fetched, and the time that the reconcile goes by.
  abbrev pub fetched_at : System W → Time × W
  fetched_at s = p.now (p.get_policy namespace name s.run.outside).1

  -- The state in which the gates are checked.
  abbrev pub fetched : ReactivePolicy → System W → System W
  fetched policy s = record s {
    run = record {
      outside = (fetched_at s).1;
      metrics = track_policy policy.metadata.namespace policy.metadata.name s.run.metrics;
    };
  }

module _ {W F : Type 0} (p : Platform W F) (wiring : Wiring W F) (namespace name : String) where
  pub reconcile_found :
      (s : System W) (policy : ReactivePolicy)
      → (p.get_policy namespace name s.run.outside).0 ≡ ok policy
      → reconcile p wiring namespace name s
        ≡ check_gate p wiring policy
            (object_key namespace name)
            (poll_interval_or_default policy)
            (fetched_at p namespace name s).0
            (fetched p namespace name policy s)
  unfolding reconcile
  reconcile_found s policy got = ground arith
