-- ===== src/Webhook/Approval/Trail.antt =====
-- What an admitted update can do to an approval gate, by the approval webhook.
use reactive_policy.Common.{
  leb_ℤ, ◌<ℤ◌, Time, Option, none, some, true, false, Error, ok, str_eq, eq_iff, ◌≡◌, refl, ◌⊎◌,
  inl, inr, ap, arith, Bool-cases, both, not-leb_ℤ→lt,
}
use reactive_policy.Api.{ActionAudit, ApprovalGate, ApprovalDecision, ApprovalPhase, decision_eq}
use reactive_policy.Platform.{Platform}
use reactive_policy.Controller.Policy.Gates.{is_pending}
use reactive_policy.Webhook.Approval.{
  Request, Response, is_undecided, is_verdict, same_time, stamps_kept, stamp, requester_name, admit,
  check_verdict, check_gates, check_objects, handle,
}

-- The audit that is stored after the answer, if the update goes through.
abbrev pub stored : Response → ActionAudit → Option ActionAudit
stored Response.allowed audit = some audit
stored (Response.patched patched_audit) audit = some patched_audit
stored response audit = none

decision_eq→≡ : (a b : ApprovalDecision) → decision_eq a b ≡ true → a ≡ b
unfolding decision_eq
decision_eq→≡ ApprovalDecision.unset ApprovalDecision.unset h = refl
decision_eq→≡ ApprovalDecision.approved ApprovalDecision.approved h = refl
decision_eq→≡ ApprovalDecision.denied ApprovalDecision.denied h = refl
decision_eq→≡ (ApprovalDecision.other s) (ApprovalDecision.other t) h =
    ap ApprovalDecision.other ((eq_iff s t).0 h)
decision_eq→≡ a b h = ground arith

same_time→≡ : (a b : Option Time) → same_time a b ≡ true → a ≡ b
unfolding same_time
same_time→≡ none none h = refl
same_time→≡ (some a) (some b) h = ground arith
same_time→≡ a b h = ground arith

module _ {W F : Type 0} (p : Platform W F) (encode_error : ActionAudit → Option Error) where
  check_verdict_lem :
      (req : Request) (n o a : ActionAudit) (ng og : ApprovalGate) (w : W)
      → stored (check_verdict p encode_error req n o ng og w).0 n ≡ some a
      → (is_undecided og.decision ≡ true)
        × ((is_verdict ng.decision ≡ true)
            × ((is_pending o.status.approval_phase ≡ true)
                × ((leb_ℤ og.expires_at (p.now w).0 ≡ false)
                    × (stored (admit p encode_error req n ng (p.now w).1).0 n ≡ some a))))
  unfolding check_verdict
  check_verdict_lem req n o a ng og w h = ground arith

  admit_lem :
      (req : Request) (n a : ActionAudit) (ng : ApprovalGate) (w : W)
      → stored (admit p encode_error req n ng w).0 n ≡ some a
      → a ≡ stamp n ng (requester_name req) (p.now w).0
  unfolding admit
  admit_lem req n a ng w h = ground arith

  check_gates_lem :
      (req : Request) (n o a : ActionAudit) (ng og : ApprovalGate) (w : W)
      → stored (check_gates p encode_error req n o ng og w).0 n ≡ some a
      → (decision_eq ng.decision og.decision ≡ true)
          × ((stamps_kept p encode_error ng og ≡ true) × (a ≡ n))
        ⊎ (stored (check_verdict p encode_error req n o ng og w).0 n ≡ some a)
  unfolding check_gates
  check_gates_lem req n o a ng og w h = elim (Bool-cases (decision_eq ng.decision og.decision)) [
    | inl e ↦ inl (ground arith)
    | inr e ↦ inr (ground arith)
  ]

  -- How the gate of the stored audit differs from the gate before.
  pub data GateChange (req : Request) (w : W)
      : ActionAudit → Option ApprovalGate → Option ApprovalGate → Type 0 where
    absent : {o : ActionAudit} → GateChange req w o none none
    kept :
        {o : ActionAudit} {og ng : ApprovalGate}
        → ng.decision ≡ og.decision
        → ng.decided_by ≡ og.decided_by
        → ng.decided_at ≡ og.decided_at
        → GateChange req w o (some og) (some ng)
    judged :
        {o : ActionAudit} {og ng : ApprovalGate}
        → og.decision ≡ ApprovalDecision.unset
        → (ng.decision ≡ ApprovalDecision.approved) ⊎ (ng.decision ≡ ApprovalDecision.denied)
        → o.status.approval_phase ≡ ApprovalPhase.pending
        → (p.now w).0 <ℤ og.expires_at
        → ng.decided_by ≡ requester_name req
        → ng.decided_at ≡ some (p.now (p.now w).1).0
        → GateChange req w o (some og) (some ng)

  is_undecided→≡ : (d : ApprovalDecision) → is_undecided d ≡ true → d ≡ ApprovalDecision.unset
  is_undecided→≡ ApprovalDecision.unset h = refl
  is_undecided→≡ d h = ground arith

  is_verdict→⊎ :
      (d : ApprovalDecision)
      → is_verdict d ≡ true
      → (d ≡ ApprovalDecision.approved) ⊎ (d ≡ ApprovalDecision.denied)
  is_verdict→⊎ ApprovalDecision.approved h = inl refl
  is_verdict→⊎ ApprovalDecision.denied h = inr refl
  is_verdict→⊎ d h = ground arith

  is_pending→≡ : (phase : ApprovalPhase) → is_pending phase ≡ true → phase ≡ ApprovalPhase.pending
  is_pending→≡ ApprovalPhase.pending h = refl
  is_pending→≡ phase h = ground arith

  stamps_kept→≡ :
      (ng og : ApprovalGate)
      → stamps_kept p encode_error ng og ≡ true
      → (ng.decided_by ≡ og.decided_by) × (ng.decided_at ≡ og.decided_at)
  unfolding stamps_kept
  stamps_kept→≡ ng og h =
      let parts = both (str_eq ng.decided_by og.decided_by) _ h in
      (
        (eq_iff ng.decided_by og.decided_by).0 parts.0,
        same_time→≡ ng.decided_at og.decided_at parts.1,
      )

  stamp-GateChange :
      (req : Request) (n o a : ActionAudit) (ng og : ApprovalGate) (w : W)
      → stored (check_verdict p encode_error req n o ng og w).0 n ≡ some a
      → GateChange req w o (some og) a.spec.gate
  unfolding stamp
  stamp-GateChange req n o a ng og w h =
      let facts = check_verdict_lem req n o a ng og w h in
      let e = admit_lem req n a ng (p.now w).1 facts.1.1.1.1 in
      rw e (
        judged (is_undecided→≡ og.decision facts.0) (is_verdict→⊎ ng.decision facts.1.0)
          (is_pending→≡ o.status.approval_phase facts.1.1.0)
          (not-leb_ℤ→lt og.expires_at _ facts.1.1.1.0) refl refl)

  gates-GateChange :
      (req : Request) (n o a : ActionAudit) (ng og : ApprovalGate) (w : W)
      → n.spec.gate ≡ some ng
      → stored (check_gates p encode_error req n o ng og w).0 n ≡ some a
      → GateChange req w o (some og) a.spec.gate
  gates-GateChange req n o a ng og w there h = elim (check_gates_lem req n o a ng og w h) [
    | inl (same, (untouched, e)) ↦ rw e (
        rw there (
          kept (decision_eq→≡ ng.decision og.decision same) (stamps_kept→≡ ng og untouched).0
            (stamps_kept→≡ ng og untouched).1))
    | inr h' ↦ stamp-GateChange req n o a ng og w h'
  ]

  objects-GateChange :
      (req : Request) (n o a : ActionAudit) (w : W) (new old : Option ApprovalGate)
      → n.spec.gate ≡ new
      → o.spec.gate ≡ old
      → stored (check_objects p encode_error req n (some o) w).0 n ≡ some a
      → GateChange req w o old a.spec.gate
  unfolding check_objects
  objects-GateChange req n o a w none none e f h =
      let e' : a ≡ n = ground arith in rw e' (rw e absent)
  objects-GateChange req n o a w none (some og) e f h = ground arith
  objects-GateChange req n o a w (some ng) none e f h = ground arith
  objects-GateChange req n o a w (some ng) (some og) e f h =
      gates-GateChange req n o a ng og w e (ground arith)

  -- Whatever an update asks for, the audit that is stored has its gate exactly if the old one had
  -- it; and either the verdict and its stamp are the old ones, or an open, undecided, unexpired
  -- gate got an approval or a denial, stamped with the authenticated name and the time.
  pub handle-GateChange :
      (req : Request) (n o a : ActionAudit) (w : W)
      → req.is_update ≡ true
      → req.object ≡ ok n
      → req.old_object ≡ some (ok o)
      → stored (handle p encode_error req w).0 n ≡ some a
      → GateChange req w o o.spec.gate a.spec.gate
  unfolding handle
  handle-GateChange req n o a w update new old h =
      objects-GateChange req n o a w _ _ refl refl (ground arith)
