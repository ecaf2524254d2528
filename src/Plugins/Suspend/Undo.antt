-- ===== src/Plugins/Suspend/Undo.antt =====
-- plugins/argocd-suspend: what Reverse leaves after an Execute.
use reactive_policy.Common.{
  String, Option, none, some, true, lookup, Error, Fallible, ok, str_eq, if◌then◌else◌, ◌≡◌, refl,
  sym, ap, ◌∙◌, subst, inl, inr, Bool-cases, Fallible-cases, arith,
}
use reactive_policy.Api.{ResultStatus}
use reactive_policy.Platform.{Platform}
use reactive_policy.Action.Types.{Value, Fields, Result, ExecuteInput}
use reactive_policy.Plugins.Kit.{Client, Kit, lift, ◌>>=◌, or_else, started, unmarshal}
use reactive_policy.Plugins.Annotate.{or_empty}
use reactive_policy.Plugins.Suspend.{
  argocd_suspend, suspend_body, suspend_with, suspended, resumed_app, reverse_suspend,
  get_application, is_application, sync_policy, automated, reason_annotation, reading,
}
use reactive_policy.Plugins.Suspend.Resume.{IsSyncLens, Resumed, resumed_app-suspended}
use reactive_policy.Plugins.Steps.{
  Holds, >>=-step, >>=-failed, err-ne-ok, execute_with-succeeded, get_object-at,
}

module _ {W F O : Type 0} (p : Platform W F) (k : Kit O) (decode : String → Fallible String)
    (c : Client W O) (input : ExecuteInput) (at : W → O) (holds : Holds p c input.target at)
    (lens : IsSyncLens k) where
  -- An Execute that suspended `app`
  abbrev Suspended : O → Result → W → Type 0
  Suspended app done w' =
      (reason : String) × (found : Fields) × (policy : Fields) × (k.nested_map automated app
        ≡ ok (some found))
      × (k.nested_field_copy sync_policy app ≡ ok (some (Value.object policy)))
      × (lookup "previousSyncPolicy" done.details ≡ some (Value.object policy))
      × (done.target ≡ input.target)
      × (at w' ≡ suspended k app reason)

  suspend_with-Suspended :
      (reason : String) (found : Fields) (app : O) (res done : Result) (w w' : W)
      → k.nested_map automated app ≡ ok (some found)
      → res.target ≡ input.target
      → suspend_with p k decode (some c) c input res reason app (some found) w ≡ (ok done, w')
      → Suspended app done w'
  unfolding ◌>>=◌ lookup
  suspend_with-Suspended reason found app res done w w' is_found same h =
      let (policy, was) = lens.in_object app found is_found in
      let obj' = suspended k app reason in
      (
        reason,
        found,
        policy,
        is_found,
        was,
        ground (arith, holds.updated obj' w),
        ground (arith, holds.updated obj' w),
        ground (arith, holds.updated obj' w, holds.stored obj' w),
      )

  abbrev read_automated : O → Fallible (Option Fields)
  read_automated app =
      reading p k decode (some c) "reading spec.syncPolicy.automated: %w"
        (k.nested_map automated app)

  -- The part of Execute after the application is read
  found-Suspended :
      (reason : String) (app : O) (res done : Result) (w w' : W)
      → res.target ≡ input.target
      → (lift (read_automated app) >>= suspend_with p k decode (some c) c input res reason app) w
        ≡ (ok done, w')
      → done.status ≡ ResultStatus.succeeded
      → Suspended app done w'
  unfolding ◌>>=◌
  found-Suspended reason app res done w w' same h s =
      elim (Fallible-cases (k.nested_map automated app)) [
        | inl (some found, e) ↦
            suspend_with-Suspended reason found app res done w w' e same (ground arith)
        | inl (none, e) ↦ ground arith
        | inr (failure, e) ↦ ground arith
      ]

  suspend_body-read :
      (given : String) (res : Result) (w : W)
      → is_application p k decode (some c) input.target ≡ true
      → unmarshal p k decode input.params ≡ ok given
      → suspend_body p k decode (some c) input res w
        ≡ (lift (read_automated (at w))
              >>= suspend_with p k decode
                  (some c)
                  c
                  input
                  res
                  (or_else given "auto-suspended by reactive-policy")
                  (at w))
            w
  unfolding suspend_body get_application
  suspend_body-read given res w is_one e = rw is_one (
      >>=-step _ _ w w given (ap (λ r. (r, w)) e)
      ∙ >>=-step _ _ w w c refl
      ∙ >>=-step _ _ w w (at w) (get_object-at p c input.target at holds _ _ w))

  suspend_body-Suspended :
      (res done : Result) (w w' : W)
      → res.target ≡ input.target
      → suspend_body p k decode (some c) input res w ≡ (ok done, w')
      → done.status ≡ ResultStatus.succeeded
      → Suspended (at w) done w'
  unfolding suspend_body
  suspend_body-Suspended res done w w' same h s =
      elim (Bool-cases (is_application p k decode (some c) input.target)) [
        | inl is_one ↦ elim (Fallible-cases (unmarshal p k decode input.params)) [
          | inl (given, e) ↦
              found-Suspended _ (at w) res done w w' same
                (sym (suspend_body-read given res w is_one e) ∙ h) s
          | inr (failure, e) ↦ absurd (
              err-ne-ok failure done w w'
                (sym (rw is_one (>>=-failed _ _ w w failure (ap (λ r. (r, w)) e))) ∙ h))
        ]
        | inr other ↦ ground arith
      ]

  -- What Reverse writes is what the client keeps.
  reverse_suspend-at :
      (done : Result) (w : W) (policy : Value) (back : O)
      → done.target ≡ input.target
      → lookup "previousSyncPolicy" done.details ≡ some policy
      → resumed_app k (at w) (some policy) ≡ ok back
      → let out = reverse_suspend p k decode (some c) done w in (out.0 ≡ none) × (at out.1 ≡ back)
  unfolding reverse_suspend get_application
  reverse_suspend-at done w policy back target recorded resumed =
      let same =
        get_object-at p c input.target at holds "%w: %s/%s" "getting application %s/%s: %w" w in
      (
        rw (target, same, recorded, resumed) (ground (arith, holds.updated back w)),
        rw (target, same, recorded, resumed)
            (ground (arith, holds.updated back w, holds.stored back w)),
      )

  Undone : Result → W → W → Type 0
  Undone done w w1 =
      let back = reverse_suspend p k decode (some c) done w1 in
      (back.0 ≡ none) × Resumed k lens (at w) (at back.1)

  Suspended-Undone :
      (done : Result) (w w1 : W) → Suspended (at (p.now w).1) done w1 → Undone done w w1
  unfolding Undone
  Suspended-Undone done w w1 (reason, found, policy, is_found, was, recorded, target, now) =
      let (back, resumed, as_before) =
        resumed_app-suspended k lens (at (p.now w).1) reason found policy is_found was in
      let (fine, written) =
        reverse_suspend-at done w1 (Value.object policy) back target recorded
          (ap (λ app. resumed_app k app (some (Value.object policy))) now ∙ resumed) in
      (
        fine,
        subst (λ app. Resumed k lens app (at (reverse_suspend p k decode (some c) done w1).1))
            (holds.now_at w)
            (subst (λ app. Resumed k lens (at (p.now w).1) app) (sym written) as_before),
      )

  -- On a cluster that keeps what it is told, after an Execute that suspended an Application, Reverse
  -- succeeds: the Application has the sync policy it had before Execute, the annotation with the
  -- reason is gone, and every other annotation is as it was.
  pub reverse_suspend-execute :
      (w : W)
      → ((argocd_suspend p k decode (some c)).execute input w).0.0.status ≡ ResultStatus.succeeded
      → let plugin = argocd_suspend p k decode (some c) in
        let out = plugin.execute input w in
        let back = plugin.reverse out.0.0 out.1 in
        (back.0 ≡ none)
        × (k.nested_field_copy sync_policy (at back.1) ≡ k.nested_field_copy sync_policy (at w))
        × ((name : String)
            → lookup name (or_empty (k.annotations (at back.1))) ≡ (
                if str_eq reason_annotation name
                then none
                else lookup name (or_empty (k.annotations (at w)))))
  unfolding argocd_suspend Undone
  reverse_suspend-execute w h =
      let (done, w1, body, all, s) =
        execute_with-succeeded p "argocd.suspend" (suspend_body p k decode (some c)) input w h in
      let how =
        suspend_body-Suspended (started "argocd.suspend" input.target (p.now w).0) done (p.now w).1
          w1 refl body s in
      let (fine, (policy, others)) =
        subst (λ (out : (Result × Option Error) × W). Undone out.0.0 w out.1) (sym all)
          (Suspended-Undone done w w1 how) in
      (fine, policy, others)
