-- ===== src/Cli/Tables.antt =====
-- The tables of pkg/cli: printPolicyTable of policy.go, and printAuditTable, printPendingTable and
-- printHistoryTable of action.go.
use reactive_policy.Common.{
  pos, ltb_ℤ, Duration, time_sub, String, List, [], ◌∷◌, length, Option, none, some, Bool,
  if◌then◌else◌,
}
use reactive_policy.Api.{ReactivePolicy, ActionAudit, ActionRecord, ApprovalGate}
use reactive_policy.Platform.{Platform, Arg}
use reactive_policy.Action.Executor.{status_text}
use reactive_policy.Cli.Audits.{audit_outcome}
use reactive_policy.Cli.Print.{
  state_text, bool_text, or_none, Colour, round_second, in_namespace, format_for, rows_of, under,
  colorize, age, age_ago, last_text,
}

-- `join` is strings.Join with a comma, `shorten` is truncate on 48 bytes.
module _ {W F : Type 0} (p : Platform W F) (human : Duration → String)
    (paint : Option (Colour → String → String)) (join : List String → String)
    (shorten : String → String) where
  abbrev policy_row : Bool → ReactivePolicy → W → List String × W
  policy_row all policy w =
      let (last, w1) = last_text p human paint policy.status.last_triggered_at w in
      let (old, w2) = age p human paint policy.metadata.creation_timestamp w1 in
      (
        p.sprintf (format_for all "%s\t%s\t%s\t%s\t%d\t%s\t%s\n" "%s\t%s\t%s\t%d\t%s\t%s\n") (
              in_namespace all policy.metadata.namespace (
                Arg.text policy.metadata.name
                ∷ Arg.text (colorize p human paint (state_text policy.status.state))
                ∷ Arg.text last
                ∷ Arg.number policy.status.trigger_count
                ∷ Arg.text (or_none policy.status.current_metric_value)
                ∷ Arg.text old
                ∷ []))
            ∷ [],
        w2,
      )

  -- printPolicyTable
  unfoldable pub print_policy_table : Bool → List ReactivePolicy → W → List String × W
  unfolding colorize age
  print_policy_table all items w =
      under
        (format_for all "NAMESPACE\tNAME\tSTATE\tLAST TRIGGERED\tCOUNT\tVALUE\tAGE"
          "NAME\tSTATE\tLAST TRIGGERED\tCOUNT\tVALUE\tAGE")
        (rows_of (policy_row all) items w)

  abbrev audit_row : Bool → ActionAudit → W → List String × W
  audit_row all a w =
      let (ago, w') = age_ago p human paint a.spec.triggered_at w in
      (
        p.sprintf (format_for all "%s\t%s\t%s\t%s\t%d\t%s\t%t\n" "%s\t%s\t%s\t%d\t%s\t%t\n") (
              in_namespace all a.metadata.namespace (
                Arg.text a.metadata.name
                ∷ Arg.text a.spec.policy_ref
                ∷ Arg.text ago
                ∷ Arg.number (pos (length a.spec.actions))
                ∷ Arg.text (colorize p human paint (audit_outcome a))
                ∷ Arg.text (bool_text a.status.reverted)
                ∷ []))
            ∷ [],
        w',
      )

  -- printAuditTable
  unfoldable pub print_audit_table : Bool → List ActionAudit → W → List String × W
  unfolding colorize age audit_outcome
  print_audit_table all items w =
      under
        (format_for all "NAMESPACE\tNAME\tPOLICY\tTRIGGERED\tACTIONS\tOUTCOME\tREVERTED"
          "NAME\tPOLICY\tTRIGGERED\tACTIONS\tOUTCOME\tREVERTED")
        (rows_of (audit_row all) items w)

  abbrev left_text : Duration → String
  left_text remaining =
      if ltb_ℤ (pos 0) remaining
      then p.sprintf "%s" (Arg.duration (round_second remaining) ∷ [])
      else "expired"

  -- A record without a gate has no row.
  abbrev gate_row : Bool → ActionAudit → Option ApprovalGate → W → List String × W
  gate_row all a none w = ([], w)
  gate_row all a (some gate) w =
      let (now, w') = p.now w in
      (
        p.sprintf (format_for all "%s\t%s\t%s\t%s\t%s\t%d\t%s\n" "%s\t%s\t%s\t%s\t%d\t%s\n") (
              in_namespace all a.metadata.namespace (
                Arg.text a.metadata.name
                ∷ Arg.text a.spec.policy_ref
                ∷ Arg.text a.spec.metric_value
                ∷ Arg.text (join gate.pending_plugins)
                ∷ Arg.number (pos (length gate.targets))
                ∷ Arg.text (left_text (time_sub gate.expires_at now))
                ∷ []))
            ∷ [],
        w',
      )

  -- printPendingTable
  unfoldable pub print_pending_table : Bool → List ActionAudit → W → List String × W
  unfolding time_sub
  print_pending_table all items w =
      under
        (format_for all "NAMESPACE\tNAME\tPOLICY\tMETRIC\tHELD\tTARGETS\tEXPIRES IN"
          "NAME\tPOLICY\tMETRIC\tHELD\tTARGETS\tEXPIRES IN")
        (rows_of (λ (a : ActionAudit). gate_row all a a.spec.gate) items w)

  abbrev record_rows : String → String → List ActionRecord → List String
  record_rows ago name [] = []
  record_rows ago name (rec ∷ rest) =
      p.sprintf "%s\t%s\t%d.%s\t%s\t%t\t%s\n" (
        Arg.text ago
        ∷ Arg.text name
        ∷ Arg.number rec.index
        ∷ Arg.text rec.plugin
        ∷ Arg.text (colorize p human paint (status_text rec.status))
        ∷ Arg.text (bool_text rec.reversible)
        ∷ Arg.text (shorten rec.message)
        ∷ [])
      ∷ record_rows ago name rest

  abbrev history_rows : ActionAudit → W → List String × W
  history_rows a w =
      let (ago, w') = age_ago p human paint a.spec.triggered_at w in
      (record_rows ago a.metadata.name a.spec.actions, w')

  -- printHistoryTable
  unfoldable pub print_history_table : List ActionAudit → W → List String × W
  unfolding colorize age
  print_history_table items w =
      under "TRIGGERED\tAUDIT\tACTION\tSTATUS\tREVERSIBLE\tMESSAGE" (rows_of history_rows items w)
