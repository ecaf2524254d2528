-- ===== src/Webhook/Policy/OneGate.antt =====
-- What admission means for an approval: nothing behind the gate asks for another one.
use reactive_policy.Common.{
  ℕ, zero, suc, ◌≤◌, List, [], ◌∷◌, some, Bool, true, false, Assoc, All, count_if, drop, get_elem?,
  Bool-cases, ◌≡◌, inl, inr, ap, ◌∙◌, arith,
}
use reactive_policy.Api.{ReactivePolicy}
use reactive_policy.Api.Policy.{Action}
use reactive_policy.Metrics.{Metrics}
use reactive_policy.Platform.{Platform}
use reactive_policy.Action.Types.{Plugin}
use reactive_policy.Action.Executor.{gate_index}
use reactive_policy.Action.Executor.Held.{IsFirstGate, gate_index-IsFirstGate}
use reactive_policy.Webhook.Policy.{validate}
use reactive_policy.Webhook.Policy.Admission.{validate↔IsValid}

abbrev holds : Action → Bool
holds act = act.requires_approval

abbrev pub Free : Action → Type 0
Free act = act.requires_approval ≡ false

All-Free : (acts : List Action) → count_if holds acts ≤ 0 → All Free acts
All-Free [] h = tt
All-Free (act ∷ rest) h = elim (Bool-cases act.requires_approval) [
  | inl e ↦ ground arith
  | inr e ↦ (e, All-Free rest (ground arith))
]

behind-Free :
    (acts : List Action) (g : ℕ) (gate : Action)
    → count_if holds acts ≤ 1
    → get_elem? acts g ≡ some gate
    → gate.requires_approval ≡ true
    → All Free (drop (suc g) acts)
behind-Free [] g gate h at held = tt
behind-Free (act ∷ rest) zero gate h at held =
    let same : act ≡ gate = ground arith in
    let here : act.requires_approval ≡ true =
      ap (λ (a : Action). a.requires_approval) same ∙ held in
    All-Free rest (ground arith)
behind-Free (act ∷ rest) (suc g) gate h at held =
    behind-Free rest g gate
      (elim (Bool-cases act.requires_approval) [ inl e ↦ ground arith | inr e ↦ ground arith ]) at
      held

-- A pipeline that the webhook admitted asks for one approval at most: behind the action where it
-- stops none asks again, so that the decision at the gate covers all that is left.
pub validate-one_gate :
    {W F : Type 0} (p : Platform W F) (plugins : Assoc (Plugin W)) (policy : ReactivePolicy)
    (m : Metrics) (g : ℕ)
    → (validate p plugins policy m).0 ≡ []
    → gate_index policy ≡ some g
    → All Free (drop (suc g) policy.spec.actions)
validate-one_gate p plugins policy m g admitted at =
    let valid = (validate↔IsValid p plugins policy m).0 admitted in
    let first : IsFirstGate policy.spec.actions (some g) =
      rw at at (gate_index-IsFirstGate policy) in
    let (gate, there, held) = first.1 in
    behind-Free policy.spec.actions g gate valid.one_gate there held
