-- ===== src/Cli/Audits/Outcome.antt =====
-- The word that sums an audit up.
use reactive_policy.Common.{
  ℕ, suc, ◌+◌, ◌≤◌, ◌==◌, List, [], ◌∷◌, length, Bool, true, false, not, ◌&&◌, ◌||◌, ◌≡◌, refl,
  arith, if◌then◌else◌,
}
use reactive_policy.Api.{ActionAudit, ActionRecord}
use reactive_policy.Controller.Policy.Gates.{is_pending}
use reactive_policy.Cli.Audits.{has_failed, has_succeeded, tally_outcomes, audit_outcome}

-- Did an action fail, and did all of them succeed?
abbrev pub some_failed : List ActionRecord → Bool
some_failed [] = false
some_failed (rec ∷ rest) = has_failed rec.status || some_failed rest

abbrev pub all_succeeded : List ActionRecord → Bool
all_succeeded [] = true
all_succeeded (rec ∷ rest) = has_succeeded rec.status && all_succeeded rest

abbrev pub is_nil : List ActionRecord → Bool
is_nil [] = true
is_nil (rec ∷ rest) = false

abbrev successes : List ActionRecord → ℕ
successes [] = 0
successes (rec ∷ rest) = if has_succeeded rec.status then suc (successes rest) else successes rest

tally_outcomes-failed :
    (failed : Bool) (n : ℕ) (recs : List ActionRecord)
    → (tally_outcomes failed n recs).0 ≡ failed || some_failed recs
unfolding tally_outcomes
tally_outcomes-failed failed n [] = ground arith
tally_outcomes-failed failed n (rec ∷ rest) = ground (
  arith,
  tally_outcomes-failed (failed || has_failed rec.status)
      (if has_succeeded rec.status then n + 1 else n) rest,
)

tally_outcomes-succeeded :
    (failed : Bool) (n : ℕ) (recs : List ActionRecord)
    → (tally_outcomes failed n recs).1 ≡ n + successes recs
unfolding tally_outcomes
tally_outcomes-succeeded failed n [] = omega arith
tally_outcomes-succeeded failed n (rec ∷ rest) = ground (
  arith,
  tally_outcomes-succeeded (failed || has_failed rec.status)
      (if has_succeeded rec.status then n + 1 else n) rest,
)

successes-le : (recs : List ActionRecord) → successes recs ≤ length recs
successes-le [] = omega arith
successes-le (rec ∷ rest) = ground (arith, successes-le rest)

successes-all : (recs : List ActionRecord) → (successes recs == length recs) ≡ all_succeeded recs
successes-all [] = refl
successes-all (rec ∷ rest) = ground (arith, successes-le rest, successes-all rest)

tally_outcomes-all :
    (recs : List ActionRecord)
    → ((tally_outcomes false 0 recs).1 == length recs) ≡ all_succeeded recs
tally_outcomes-all recs =
    let counted : (tally_outcomes false 0 recs).1 ≡ successes recs =
      omega (arith, tally_outcomes-succeeded false 0 recs) in
    rw counted (successes-all recs)

length-is_nil : (recs : List ActionRecord) → (length recs == 0) ≡ is_nil recs
length-is_nil [] = refl
length-is_nil (rec ∷ rest) = ground arith

-- The outcome of an audit is AwaitingApproval while a gate is pending, and else Failed if some action
-- failed, Succeeded if there are actions and each of them succeeded, and Skipped otherwise.
pub audit_outcome_lem :
    (a : ActionAudit)
    → let actions = a.spec.actions in
      audit_outcome a ≡ (
        if is_pending a.status.approval_phase
        then "AwaitingApproval"
        else if some_failed actions
        then "Failed"
        else if not (is_nil actions) && all_succeeded actions
        then "Succeeded"
        else "Skipped")
unfolding audit_outcome
audit_outcome_lem a = rw (
  tally_outcomes-failed false 0 a.spec.actions,
  tally_outcomes-all a.spec.actions,
  length-is_nil a.spec.actions,
)
