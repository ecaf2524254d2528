-- ===== src/Controller/Audit/Reconcile.antt =====
-- Reconcile of actionaudit_controller.go.
use reactive_policy.Common.{
  Bool, pos, leb_ℤ, ◌+ℤ◌, Time, time_sub, String, [], none, some, true, false, Fallible, ok, err,
  is_not_found, Act, ◌>>=◌, pure, if◌then◌else◌, ◌&&◌, not,
}
use reactive_policy.Api.{ActionAudit}
use reactive_policy.Platform.{Platform, wrap}
use reactive_policy.Controller.System.{System, Answer, Wiring, no_requeue, ask, after}
use reactive_policy.Controller.Policy.Gates.{is_pending}
use reactive_policy.Controller.Audit.Retention.{retention_for}
use reactive_policy.Controller.Audit.Revert.{revert}
use reactive_policy.Controller.Audit.Gate.{resolve_gate}

module _ {W F : Type 0} (p : Platform W F) (wiring : Wiring W F) where
  -- The retention sweep's delete.
  unfoldable pub sweep : ActionAudit → Act (System W) (Fallible Answer)
  sweep audit = do
    deleted ← ask (p.delete_audit audit)
    pure (elim deleted [
      | none ↦ ok no_requeue
      | some e ↦
          if is_not_found e
          then ok no_requeue
          else err (wrap p "deleting expired audit record: %w" [] e)
    ])

  -- A record within its retention: an open gate comes first, then a revert that was asked for.
  unfoldable pub advance : ActionAudit → Time → Act (System W) (Fallible Answer)
  advance audit expiry = elim (is_pending audit.status.approval_phase) [
    | true ↦ resolve_gate p wiring audit expiry
    | false ↦ elim (audit.spec.revert_requested && not audit.status.reverted) [
      | true ↦ revert p wiring audit expiry
      | false ↦ (do t ← ask p.now; pure (ok (after (time_sub expiry t))))
    ]
  ]

  -- The two sides of the test on what is left of the retention.
  unfoldable pub by_age : ActionAudit → Time → Bool → Act (System W) (Fallible Answer)
  by_age audit expiry true = sweep audit
  by_age audit expiry false = advance audit expiry

  -- The record is there: it is reclaimed once its retention is over.
  unfoldable pub retain : ActionAudit → Act (System W) (Fallible Answer)
  retain audit = do
    retention ← retention_for p audit
    let expiry = audit.metadata.creation_timestamp +ℤ retention
    t ← ask p.now
    by_age audit expiry (leb_ℤ (time_sub expiry t) (pos 0))

  -- Reconcile
  unfoldable pub reconcile_audit : String → String → Act (System W) (Fallible Answer)
  reconcile_audit namespace name = do
    got ← ask (p.get_audit namespace name)
    elim got [
      | err e ↦
          if is_not_found e
          then pure (ok no_requeue)
          else pure (err (wrap p "fetching audit record: %w" [] e))
      | ok audit ↦ retain audit
    ]
