-- ===== src/Controller/System.antt =====
-- The state that both reconcilers act on: the outside world and the metrics, the sliding window
-- and the rate limiter's cache, which live in the operator's memory. With it the answer of a
-- reconcile, and the interfaces that SetupWithManager fills in.
use reactive_policy.Common.{pos, Duration, String, Option, Bool, false, Fallible, Act, Assoc}
use reactive_policy.Metrics.{Metrics}
use reactive_policy.Action.Types.{Plugin}
use reactive_policy.Action.Executor.{Run}
use reactive_policy.Sink.{Sink}
use reactive_policy.Prometheus.Window.{SlidingWindow}
use reactive_policy.Controller.Limiter.{Cache}

pub record System (W : Type 0) : Type 0 where
  pub run : Run W
  pub window : SlidingWindow
  pub limiter : Cache

-- ctrl.Result
pub record Answer : Type 0 where
  pub requeue : Bool
  pub requeue_after : Duration

abbrev pub no_requeue : Answer
no_requeue = record { requeue = false; requeue_after = pos 0 }

abbrev pub after : Duration → Answer
after d = record { requeue = false; requeue_after = d }

-- The fields of the two reconcilers that are not state: the plugins of the executor's registry,
-- the metric client's factory and the audit sink (`none` is nil).
pub record Wiring (W F : Type 0) : Type 0 where
  pub plugins : Assoc (Plugin W)
  pub prometheus : String → Fallible (String → W → Fallible F × W)
  pub sink : Option (Sink W)

module _ {W : Type 0} where
  -- An action of the executor or of the audit writer.
  abbrev pub running : {A : Type 0} → Act (Run W) A → Act (System W) A
  running m s = ((m s.run).0, record s { run = (m s.run).1 })

  -- A call of something outside.
  abbrev pub ask : {A : Type 0} → (W → A × W) → Act (System W) A
  ask m = running λ r. ((m r.outside).0, record r { outside = (m r.outside).1 })

  abbrev pub tally : (Metrics → Metrics) → Act (System W) (Unit {0})
  tally f s = (tt, record s { run = record s.run { metrics = f s.run.metrics } })

  abbrev pub in_window : (SlidingWindow → SlidingWindow) → Act (System W) (Unit {0})
  in_window f s = (tt, record s { window = f s.window })

  abbrev pub in_limiter : (Cache → Cache) → Act (System W) (Unit {0})
  in_limiter f s = (tt, record s { limiter = f s.limiter })

  -- The limiter's methods see its cache and, through their reader, the outside.
  abbrev pub limited : {A : Type 0} → (Cache × W → A × (Cache × W)) → Act (System W) A
  limited m s =
      let out = m (s.limiter, s.run.outside) in
      (out.0, record s { limiter = out.1.0; run = record s.run { outside = out.1.1 } })
