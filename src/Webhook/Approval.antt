-- ===== src/Webhook/Approval.antt =====
-- internal/webhook/v1alpha1/actionaudit_webhook.go: who may write what on an approval gate.
pub mod Trail
pub mod Verdict
use reactive_policy.Common.{
  ℕ, leb_ℤ, Time, String, [], ◌∷◌, Option, none, some, Bool, true, false, ◌&&◌, Error, Fallible, ok,
  err, Act, ◌>>=◌, pure, if◌then◌else◌, str_eq,
}
use reactive_policy.Api.{ActionAudit, ApprovalGate, ApprovalDecision, ApprovalPhase, decision_eq}
use reactive_policy.Platform.{Platform}
use reactive_policy.Platform
use reactive_policy.Controller.Policy.Gates.{is_pending}

-- An admission request: the decoded object and, if there is one, the decoded old object.
pub record Request : Type 0 where
  pub is_update : Bool
  pub object : Fallible ActionAudit
  pub old_object : Option (Fallible ActionAudit)
  pub username : String

-- `patched` answers with the changes that lead from the request's object to the audit given.
pub data Response : Type 0 where
  allowed : Response
  denied : String → Response
  errored : ℕ → Error → Response
  patched : ActionAudit → Response

-- requesterName
unfoldable pub requester_name : Request → String
requester_name req = if str_eq req.username "" then "unknown" else req.username

-- sameTime
unfoldable pub same_time : Option Time → Option Time → Bool
same_time none none = true
same_time none (some b) = false
same_time (some a) none = false
same_time (some a) (some b) = leb_ℤ a b && leb_ℤ b a

abbrev pub is_undecided : ApprovalDecision → Bool
is_undecided ApprovalDecision.unset = true
is_undecided _ = false

abbrev pub is_verdict : ApprovalDecision → Bool
is_verdict ApprovalDecision.approved = true
is_verdict ApprovalDecision.denied = true
is_verdict _ = false

abbrev pub decision_text : ApprovalDecision → String
decision_text ApprovalDecision.unset = ""
decision_text ApprovalDecision.approved = "Approved"
decision_text ApprovalDecision.denied = "Denied"
decision_text (ApprovalDecision.other s) = s

abbrev pub phase_text : ApprovalPhase → String
phase_text ApprovalPhase.unset = ""
phase_text ApprovalPhase.pending = "Pending"
phase_text ApprovalPhase.approved = "Approved"
phase_text ApprovalPhase.denied = "Denied"
phase_text ApprovalPhase.expired = "Expired"

-- The patched copy: the requester's name and the time stand beside the verdict.
unfoldable pub stamp : ActionAudit → ApprovalGate → String → Time → ActionAudit
stamp audit gate name now = record audit {
  spec = record audit.spec {
    gate = some (record gate { decided_by = name; decided_at = some now });
  };
}

module _ {W F : Type 0} (p : Platform W F) (encode_error : ActionAudit → Option Error) where
  -- The stamped fields are left alone.
  unfoldable pub stamps_kept : ApprovalGate → ApprovalGate → Bool
  stamps_kept new_gate old_gate =
      str_eq new_gate.decided_by old_gate.decided_by
      && same_time new_gate.decided_at old_gate.decided_at

  -- The end of Handle: the verdict is admitted, with its stamp.
  unfoldable pub admit : Request → ActionAudit → ApprovalGate → Act W Response
  admit req new_audit new_gate = do
    now ← p.now
    let patched_audit = stamp new_audit new_gate (requester_name req) now
    pure (elim (encode_error patched_audit) [
      | some e ↦ errored 500 e
      | none ↦ patched patched_audit
    ])

  -- A changed verdict.
  unfoldable pub check_verdict :
      Request → ActionAudit → ActionAudit → ApprovalGate → ApprovalGate → Act W Response
  check_verdict req new_audit old_audit new_gate old_gate = elim (is_undecided old_gate.decision) [
    | false ↦ pure (
        denied (
          p.sprintf "spec.gate.decision is write-once; this gate was already %s"
            (Platform.Arg.text (decision_text old_gate.decision) ∷ [])))
    | true ↦ elim (is_verdict new_gate.decision) [
      | false ↦ pure (
          denied (
            p.sprintf "spec.gate.decision must be %q or %q"
              (Platform.Arg.text "Approved" ∷ Platform.Arg.text "Denied" ∷ [])))
      | true ↦ elim (is_pending old_audit.status.approval_phase) [
        | false ↦ pure (
            denied (
              p.sprintf "this gate is not open for a decision; its approval phase is %q"
                (Platform.Arg.text (phase_text old_audit.status.approval_phase) ∷ [])))
        | true ↦ (do
          now ← p.now
          elim (leb_ℤ old_gate.expires_at now) [
            | true ↦ pure (denied "the approval gate has expired; the actions it held will not run")
            | false ↦ admit req new_audit new_gate
          ])
      ]
    ]
  ]

  -- Two gates are there.
  unfoldable pub check_gates :
      Request → ActionAudit → ActionAudit → ApprovalGate → ApprovalGate → Act W Response
  check_gates req new_audit old_audit new_gate old_gate =
      elim (decision_eq new_gate.decision old_gate.decision) [
        | true ↦ pure (
            if stamps_kept new_gate old_gate
            then allowed
            else denied
                "spec.gate.decidedBy and spec.gate.decidedAt are stamped from the authenticated request and cannot be written directly")
        | false ↦ check_verdict req new_audit old_audit new_gate old_gate
      ]

  -- The cases on which of the two objects has a gate.
  unfoldable pub check_objects : Request → ActionAudit → Option ActionAudit → Act W Response
  check_objects req new_audit old = elim new_audit.spec.gate [
    | none ↦ elim old [
      | none ↦ pure allowed
      | some old_audit ↦ elim old_audit.spec.gate [
        | none ↦ pure allowed
        | some old_gate ↦
            pure (denied "spec.gate cannot be removed; the approval trail is part of the record")
      ]
    ]
    | some new_gate ↦ elim old [
      | none ↦ pure (
          denied
            "spec.gate is opened by the operator when a pipeline stops at a gated action; it cannot be added by a client")
      | some old_audit ↦ elim old_audit.spec.gate [
        | none ↦ pure (
            denied
              "spec.gate is opened by the operator when a pipeline stops at a gated action; it cannot be added by a client")
        | some old_gate ↦ check_gates req new_audit old_audit new_gate old_gate
      ]
    ]
  ]

  -- Handle; a missing old object is the zero audit, which has no gate
  unfoldable pub handle : Request → Act W Response
  handle req = elim req.is_update [
    | false ↦ pure allowed
    | true ↦ elim req.object [
      | err e ↦ pure (errored 400 e)
      | ok new_audit ↦ elim req.old_object [
        | none ↦ check_objects req new_audit none
        | some decoded ↦ elim decoded [
          | err e ↦ pure (errored 400 e)
          | ok old_audit ↦ check_objects req new_audit (some old_audit)
        ]
      ]
    ]
  ]
