-- ===== src/Webhook/Approval/Verdict.antt =====
-- The life of a verdict under the approval webhook: how it gets in, and that it stays.
use reactive_policy.Common.{
  Time, Option, none, some, true, Error, ok, ◌≡◌, refl, ◌≢◌, sym, ◌∙◌, arith,
}
use reactive_policy.Api.{ActionAudit, ApprovalGate, ApprovalDecision}
use reactive_policy.Platform.{Platform}
use reactive_policy.Webhook.Approval.{Request, same_time, check_gates, check_objects, handle}
use reactive_policy.Webhook.Approval.Trail.{stored, GateChange, handle-GateChange}

same_time_refl : (a : Option Time) → same_time a a ≡ true
unfolding same_time
same_time_refl none = refl
same_time_refl (some a) = ground arith

module _ {W F : Type 0} (p : Platform W F) (encode_error : ActionAudit → Option Error) where
  handle_gates :
      (req : Request) (n o : ActionAudit) (ng og : ApprovalGate) (w : W)
      → req.is_update ≡ true
      → req.object ≡ ok n
      → req.old_object ≡ some (ok o)
      → n.spec.gate ≡ some ng
      → o.spec.gate ≡ some og
      → handle p encode_error req w ≡ check_gates p encode_error req n o ng og w
  unfolding handle check_objects
  handle_gates req n o ng og w update new old e f = ground arith

  -- What can happen to an audit record: updates that the webhook lets through, and writes that do
  -- not go by it, which are those of the status and leave the gate alone.
  pub data History : ActionAudit → ActionAudit → Type 0 where
    start : {o : ActionAudit} → History o o
    update :
        {first o a : ActionAudit} (req : Request) (n : ActionAudit) (w : W)
        → History first o
        → req.is_update ≡ true
        → req.object ≡ ok n
        → req.old_object ≡ some (ok o)
        → stored (handle p encode_error req w).0 n ≡ some a
        → History first a
    elsewhere :
        {first o a : ActionAudit} → History first o → a.spec.gate ≡ o.spec.gate → History first a

  -- The gate is there, with the same verdict and the same stamp.
  pub data Upholds (og : ApprovalGate) : Option ApprovalGate → Type 0 where
    upheld :
        {ng : ApprovalGate}
        → ng.decision ≡ og.decision
        → ng.decided_by ≡ og.decided_by
        → ng.decided_at ≡ og.decided_at
        → Upholds og (some ng)

  GateChange-Upholds :
      (req : Request) (w : W) (o : ActionAudit) (og : ApprovalGate) (old new : Option ApprovalGate)
      → og.decision ≢ ApprovalDecision.unset
      → Upholds og old
      → GateChange p encode_error req w o old new
      → Upholds og new
  GateChange-Upholds req w o og _ _ decided (upheld d b t) (GateChange.kept d' b' t') =
      upheld (d' ∙ d) (b' ∙ b) (t' ∙ t)
  GateChange-Upholds req w o og _ _ decided (upheld d b t)
        (GateChange.judged unset v ph early by_name at_time) =
      absurd (decided (sym d ∙ unset))

  -- A verdict is final: whatever updates are asked for, by whomever and in whatever order, once a
  -- gate is decided its verdict, the name of its approver and its time stay as they are.
  pub verdict_final :
      (o a : ActionAudit) (og : ApprovalGate)
      → o.spec.gate ≡ some og
      → og.decision ≢ ApprovalDecision.unset
      → History o a
      → Upholds og a.spec.gate
  verdict_final o _ og there decided start = rw there (upheld refl refl refl)
  verdict_final o a og there decided (update {o = before} req n w earlier u new old h) =
      GateChange-Upholds req w before og _ _ decided
        (verdict_final o before og there decided earlier)
        (handle-GateChange p encode_error req n before a w u new old h)
  verdict_final o a og there decided (elsewhere {o = before} earlier same) =
      rw same (verdict_final o before og there decided earlier)
