-- ===== src/Controller/Audit/Gate.antt =====
-- releaseGate and resolveGate of actionaudit_controller.go.
use reactive_policy.Common.{
  pos, ltb_ℤ, leb_ℤ, Time, time_sub, String, List, [], ◌∷◌, Option, none, some, Bool, true, false,
  Error, ErrorKind, Fallible, ok, err, is_not_found, is_conflict, Act, ◌>>=◌, ◌>>◌, pure,
  if◌then◌else◌, length, map, str_eq, not, ◌&&◌,
}
use reactive_policy.Api.{
  ReactivePolicy, ActionAudit, ApprovalGate, ApprovalPhase, ApprovalDecision, ConditionStatus,
}
use reactive_policy.Metrics.{record_gate_resolved}
use reactive_policy.Platform.{Platform, wrap}
use reactive_policy.Platform
use reactive_policy.Action.Types.{Result}
use reactive_policy.Sink.{Sink}
use reactive_policy.Controller.AuditWriter.{action_target, to_records, build_sink_events, tell_sink}
use reactive_policy.Controller.System.{System, Answer, Wiring, running, ask, tally, after}
use reactive_policy.Controller.Policy.Trigger.{or_namespace, run_targets}
use reactive_policy.Controller.Audit.Revert.{again}
use reactive_policy.Controller.Audit.Closing.{
  decided_by_or_unknown, gate_waited, append_actions, start_cooldown, decided, close_gate,
}

module _ {W F : Type 0} (p : Platform W F) (wiring : Wiring W F) where
  abbrev tell_released : Option (Sink W) → List Result → ActionAudit → Act (System W) (Unit {0})
  tell_released sink [] audit = pure tt
  tell_released sink (res ∷ rest) audit =
      running (tell_sink p wiring.plugins sink (build_sink_events audit))

  abbrev released_message : ApprovalGate → List Result → String
  released_message gate results = p.sprintf "approved by %s; ran %d held action(s)" (
      Platform.Arg.text (decided_by_or_unknown gate)
      ∷ Platform.Arg.number (pos (length results))
      ∷ [])

  -- The second half of releaseGate: the outcomes are folded into the record.
  unfoldable pub record_released :
      ActionAudit
      → ApprovalGate
      → ReactivePolicy
      → List Result
      → Time
      → Act (System W) (Fallible Answer)
  record_released audit gate policy results expiry = do
    recorded ← ask (
        p.update_audit
          (append_actions (to_records p wiring.plugins (length audit.spec.actions) results) audit))
    elim recorded [
      | err e ↦
          if is_conflict e
          then pure (ok again)
          else pure (err (wrap p "recording released actions: %w" [] e))
      | ok audit' ↦ (do
        now ← ask p.now
        updated ← ask (
            p.update_audit_status (
              decided p ApprovalPhase.approved (some now) ConditionStatus.cond_true "Released"
                (released_message gate results) audit'))
        elim updated [
          | err e ↦
              if is_conflict e
              then pure (ok again)
              else pure (err (wrap p "updating gate status: %w" [] e))
          | ok released ↦ (do
            tally (
                record_gate_resolved released.metadata.namespace "approved"
                  (gate_waited released now))
            tell_released wiring.sink results released
            start_cooldown p policy now
            t ← ask p.now
            pure (ok (after (time_sub expiry t))))
        ])
    ]

  -- The allocation of releaseGate's result slice panics on a negative capacity: the policy now has
  -- fewer actions than stood before the gate.
  abbrev pub cap_out_of_range : Error
  cap_out_of_range = record { kind = ErrorKind.panicked; message = "makeslice: cap out of range" }

  unfoldable pub run_held :
      ActionAudit → ApprovalGate → ReactivePolicy → Time → Act (System W) (Fallible Answer)
  run_held audit gate policy expiry =
      let to = pos (length policy.spec.actions) in
      let targets = or_namespace p audit.metadata.namespace (map action_target gate.targets) in
      elim (ltb_ℤ to gate.action_index) [
        | true ↦ pure (err cap_out_of_range)
        | false ↦ (do
          out ←
              run_targets p wiring policy audit.spec.metric_value gate.action_index to targets []
                none
          record_released audit gate policy out.0 expiry)
      ]

  abbrev pub replaced : ActionAudit → ReactivePolicy → Bool
  replaced audit policy =
      not (str_eq audit.spec.policy_uid "")
      && not (str_eq policy.metadata.uid audit.spec.policy_uid)

  -- releaseGate
  unfoldable pub release_gate : ActionAudit → ApprovalGate → Time → Act (System W) (Fallible Answer)
  release_gate audit gate expiry = do
    got ← ask (p.get_policy audit.metadata.namespace audit.spec.policy_ref)
    elim got [
      | err e ↦ elim (is_not_found e) [
        | false ↦ pure (err (wrap p "fetching policy for approved gate: %w" [] e))
        | true ↦
            close_gate p audit ApprovalPhase.denied "PolicyGone"
              "the policy was deleted while the gate was open; held actions were not run" expiry
      ]
      | ok policy ↦ elim (replaced audit policy) [
        | true ↦
            close_gate p audit ApprovalPhase.denied "PolicyReplaced"
              "the policy was replaced while the gate was open; held actions were not run" expiry
        | false ↦ run_held audit gate policy expiry
      ]
    ]

  -- The branches of resolveGate that ask the clock.
  unfoldable pub wait_or_expire :
      ActionAudit → ApprovalGate → Time → Act (System W) (Fallible Answer)
  wait_or_expire audit gate expiry = do
    now ← ask p.now
    elim (leb_ℤ gate.expires_at now) [
      | true ↦
          close_gate p audit ApprovalPhase.expired "Expired"
            (p.sprintf "no decision within the approval timeout; %d action(s) were not run"
              (Platform.Arg.number (pos (length gate.pending_plugins)) ∷ []))
            expiry
      | false ↦ (do t ← ask p.now; pure (ok (after (time_sub gate.expires_at t))))
    ]

  -- The switch of resolveGate on the decision.
  unfoldable pub on_decision :
      ActionAudit → ApprovalGate → Time → ApprovalDecision → Act (System W) (Fallible Answer)
  on_decision audit gate expiry ApprovalDecision.approved = release_gate audit gate expiry
  on_decision audit gate expiry ApprovalDecision.denied =
      close_gate p audit ApprovalPhase.denied "Denied"
        (p.sprintf "denied by %s" (Platform.Arg.text (decided_by_or_unknown gate) ∷ [])) expiry
  on_decision audit gate expiry ApprovalDecision.unset = wait_or_expire audit gate expiry
  on_decision audit gate expiry (ApprovalDecision.other s) = wait_or_expire audit gate expiry

  -- resolveGate
  unfoldable pub resolve_gate : ActionAudit → Time → Act (System W) (Fallible Answer)
  resolve_gate audit expiry = elim audit.spec.gate [
    | none ↦
        close_gate p audit ApprovalPhase.denied "GateMissing"
          "record was pending with no gate description" expiry
    | some gate ↦ on_decision audit gate expiry gate.decision
  ]
