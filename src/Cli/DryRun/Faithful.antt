-- ===== src/Cli/DryRun/Faithful.antt =====
-- When a dry run says that the policy would trigger.
use reactive_policy.Common.{
  ℕ, suc, String, List, [], ◌∷◌, none, some, true, ◌&&◌, Assoc, Fallible, ok, ◌≡◌, refl, ◌↔◌, All,
  arith, inl, inr, Fallible-cases, Option-cases, both,
}
use reactive_policy.Api.{ReactivePolicy}
use reactive_policy.Api.Policy.{Action}
use reactive_policy.Platform.{Platform}
use reactive_policy.Action.Types.{Plugin}
use reactive_policy.Action.Registry.{lookup_plugin}
use reactive_policy.Prometheus.{parse_threshold, compare}
use reactive_policy.Cli.DryRun.{dry_run, dry_run_actions, actions_valid}

module _ {W F : Type 0} (p : Platform W F) (plugins : Assoc (Plugin W))
    (prometheus : String → Fallible (String → W → Fallible F × W)) where
  -- The action's plugin is registered and takes the params.
  abbrev pub Accepts : Action → Type 0
  Accepts act =
      (plugin : Plugin W) × (lookup_plugin plugins act.plugin ≡ some plugin)
      × (plugin.validate act.params ≡ none)

  -- The source answers with a value past the threshold, and every action is accepted.
  pub record WouldTrigger (policy : ReactivePolicy) (w : W) : Type 0 where
    pub query : String → W → Fallible F × W
    pub connected : prometheus policy.spec.observe.endpoint ≡ ok query
    pub value : F
    pub answered : (query policy.spec.observe.query w).0 ≡ ok value
    pub threshold : F
    pub parsed : parse_threshold p policy.spec.observe.threshold ≡ ok threshold
    pub crossed : compare p value threshold policy.spec.observe.operator ≡ true
    pub accepted : All Accepts policy.spec.actions

  actions_valid-Accepts :
      (i : ℕ) (actions : List Action)
      → actions_valid p plugins (dry_run_actions p plugins i actions) ≡ true
      → All Accepts actions
  unfolding dry_run_actions
  actions_valid-Accepts i [] h = tt
  actions_valid-Accepts i (act ∷ rest) h = elim (Option-cases (lookup_plugin plugins act.plugin)) [
    | inl e ↦ ground arith
    | inr (plugin, e) ↦ elim (Option-cases (plugin.validate act.params)) [
      | inl fine ↦ ((plugin, e, fine), actions_valid-Accepts (suc i) rest (ground arith))
      | inr (failure, bad) ↦ ground arith
    ]
  ]

  Accepts-actions_valid :
      (i : ℕ) (actions : List Action)
      → All Accepts actions
      → actions_valid p plugins (dry_run_actions p plugins i actions) ≡ true
  unfolding dry_run_actions
  Accepts-actions_valid i [] h = refl
  Accepts-actions_valid i (act ∷ rest) ((plugin, e, fine), hs) =
      ground (arith, Accepts-actions_valid (suc i) rest hs)

  WouldTrigger-dry_run :
      (policy : ReactivePolicy) (w : W)
      → WouldTrigger policy w
      → (dry_run p plugins prometheus policy w).0.would_trigger ≡ true
  unfolding dry_run
  WouldTrigger-dry_run policy w t = ground (
    arith,
    t.connected,
    t.answered,
    t.parsed,
    t.crossed,
    Accepts-actions_valid 0 policy.spec.actions t.accepted,
  )

  dry_run-WouldTrigger :
      (policy : ReactivePolicy) (w : W)
      → (dry_run p plugins prometheus policy w).0.would_trigger ≡ true
      → WouldTrigger policy w
  unfolding dry_run
  dry_run-WouldTrigger policy w h =
      elim (Fallible-cases (prometheus policy.spec.observe.endpoint)) [
        | inr (e, broken) ↦ ground arith
        | inl (query, connected) ↦ elim (Fallible-cases (query policy.spec.observe.query w).0) [
          | inr (e, silent) ↦ ground arith
          | inl (value, answered) ↦
              elim (Fallible-cases (parse_threshold p policy.spec.observe.threshold)) [
                | inr (e, bad) ↦ ground arith
                | inl (threshold, parsed) ↦
                    let parts : compare p value threshold policy.spec.observe.operator
                          && actions_valid p plugins
                              (dry_run_actions p plugins 0 policy.spec.actions)
                        ≡ true =
                      ground arith in
                    let (crossed, valid) = both _ _ parts in
                    record {
                      query = query;
                      connected = connected;
                      value = value;
                      answered = answered;
                      threshold = threshold;
                      parsed = parsed;
                      crossed = crossed;
                      accepted = actions_valid-Accepts 0 policy.spec.actions valid;
                    }
              ]
        ]
      ]

  -- A dry run says that the policy would trigger exactly when the metric source of its endpoint answers
  -- its query with a value, the threshold is a number that the value crosses by the operator's own
  -- comparison, and the plugin of every action is registered and takes its params.
  pub dry_run↔WouldTrigger :
      (policy : ReactivePolicy) (w : W)
      → ((dry_run p plugins prometheus policy w).0.would_trigger ≡ true) ↔ WouldTrigger policy w
  dry_run↔WouldTrigger policy w = (dry_run-WouldTrigger policy w, WouldTrigger-dry_run policy w)
