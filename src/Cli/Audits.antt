-- ===== src/Cli/Audits.antt =====
-- The commands of pkg/cli/action.go that show audits: which records they list, in which order, and
-- the one word that a record is summed up by.
pub mod Outcome
use reactive_policy.Common.{
  ℕ, suc, ◌+◌, ◌==◌, ℤ, ltb_ℤ, leb_ℤ, ◌-ℤ◌, Time, Duration, String, List, [], ◌∷◌, length, Option,
  Bool, true, false, not, ◌&&◌, ◌||◌, Fallible, ok, err, keep_if, if◌then◌else◌, str_eq,
}
use reactive_policy.Api.{ActionAudit, ActionRecord, ResultStatus, ApprovalPhase}
use reactive_policy.Platform.{Platform, Arg, wrap}
use reactive_policy.Controller.Policy.Gates.{is_pending}

-- Factory.namespace and Factory.listNamespace
unfoldable pub namespace_of : String → String
namespace_of given = if str_eq given "" then "default" else given

unfoldable pub list_namespace : Bool → String → String
unfolding namespace_of
list_namespace true given = ""
list_namespace false given = namespace_of given

abbrev pub has_failed : ResultStatus → Bool
has_failed ResultStatus.failed = true
has_failed _ = false

abbrev pub has_succeeded : ResultStatus → Bool
has_succeeded ResultStatus.succeeded = true
has_succeeded _ = false

-- The loop of auditOutcome: did one fail, and how many succeeded
unfoldable pub tally_outcomes : Bool → ℕ → List ActionRecord → Bool × ℕ
tally_outcomes failed succeeded [] = (failed, succeeded)
tally_outcomes failed succeeded (rec ∷ rest) =
    tally_outcomes (failed || has_failed rec.status)
      (if has_succeeded rec.status then succeeded + 1 else succeeded) rest

-- auditOutcome
unfoldable pub audit_outcome : ActionAudit → String
unfolding tally_outcomes
audit_outcome a =
    if is_pending a.status.approval_phase
    then "AwaitingApproval"
    else let (failed, succeeded) = tally_outcomes false 0 a.spec.actions in
      if failed
      then "Failed"
      else if not (length a.spec.actions == 0) && succeeded == length a.spec.actions
      then "Succeeded"
      else "Skipped"

-- sortAudits: newest first, by insertion; among equal times the order is Go's own
unfoldable pub insert_audit : ActionAudit → List ActionAudit → List ActionAudit
insert_audit a [] = a ∷ []
insert_audit a (b ∷ rest) =
    if ltb_ℤ a.spec.triggered_at b.spec.triggered_at then b ∷ insert_audit a rest else a ∷ b ∷ rest

unfoldable pub sort_audits : List ActionAudit → List ActionAudit
unfolding insert_audit
sort_audits [] = []
sort_audits (a ∷ rest) = insert_audit a (sort_audits rest)

-- `action pending`: the records that wait at a gate
unfoldable pub pending_audits : List ActionAudit → List ActionAudit
unfolding sort_audits
pending_audits audits =
    sort_audits (keep_if (λ (a : ActionAudit). is_pending a.status.approval_phase) audits)

-- `action audit`: the records of the last `window`
unfoldable pub recent_audits : Time → Duration → List ActionAudit → List ActionAudit
unfolding sort_audits
recent_audits now window audits =
    sort_audits (keep_if (λ (a : ActionAudit). ltb_ℤ (now -ℤ window) a.spec.triggered_at) audits)

-- `list_all` lists every audit in a namespace, or in all of them if that is "".
module _ {W F : Type 0} (p : Platform W F)
    (list_all : String → W → Fallible (List ActionAudit) × W) where
  -- Factory.listAudits
  unfoldable pub list_audits : Bool → String → String → W → Fallible (List ActionAudit) × W
  unfolding list_namespace
  list_audits all_namespaces given policy_name w =
      let namespace = list_namespace all_namespaces given in
      let (answer, w') =
        if str_eq policy_name ""
        then list_all namespace w
        else p.list_audits namespace policy_name w in
      elim answer [
        | err e ↦ (err (wrap p "listing audit records: %w" [] e), w')
        | ok items ↦ (ok items, w')
      ]
