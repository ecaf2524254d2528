-- ===== src/Plugins/Contract.antt =====
-- What every plugin's Execute promises the executor.
use reactive_policy.Common.{
  ℤ, Time, Assoc, String, List, [], ◌∷◌, Option, none, some, Bool, true, false, Error, Fallible, ok,
  err, ◌≡◌, ◌≢◌, refl, ◌⊎◌, inl, inr, All, arith, Bool-cases, Fallible-cases, not, ◌&&◌, lookup,
}
use reactive_policy.Api.{ResultStatus}
use reactive_policy.Platform.{Platform}
use reactive_policy.Action.Types.{Target, Value, Fields, Result, ExecuteInput, Plugin}
use reactive_policy.Plugins.Kit.{Client, Kit, Attempt, ◌>>=◌, execute_with, started, finished}
use reactive_policy.Plugins.MeshShift.Weights.{MeshParams, BackendChange}
use reactive_policy.Plugins.MeshShift.Shift.{mesh_shift, shift_body, after_apply}
use reactive_policy.Plugins.Isolate.Policy.{
  IsolateParams, network_isolate, isolate_body, isolate_with,
}
use reactive_policy.Plugins.Annotate.{
  AnnotateParams, k8s_annotate, annotate_body, annotate_object, is_present, or_empty, overwrites,
}
use reactive_policy.Plugins.Suspend.{argocd_suspend, suspend_body, suspend_with, is_application}
use reactive_policy.Plugins.BuiltIn.{Codecs, built_in}
use reactive_policy.Plugins.Slack.{SlackParams, notify_slack, slack_body}

-- A failure has an error, and anything else is a success or was skipped.
abbrev pub StatusFits : Option Error → Result → Type 0
StatusFits none res = (res.status ≡ ResultStatus.succeeded) ⊎ (res.status ≡ ResultStatus.skipped)
StatusFits (some e) res = (res.status ≡ ResultStatus.failed) × (res.details ≡ [])

abbrev pub FulfilsContract : {W : Type 0} → Plugin W → Type 0
FulfilsContract {W} plugin =
    (input : ExecuteInput) (w : W)
    → let out = plugin.execute input w in
      (out.0.0.plugin_name ≡ plugin.name)
      × (out.0.0.target ≡ input.target)
      × (out.0.0.timestamp ≢ none)
      × StatusFits out.0.1 out.0.0

-- What a body makes of the result that it was given.
abbrev Fits : Result → Fallible Result → Type 0
Fits res (err e) = Unit
Fits res (ok done) =
    (done.plugin_name ≡ res.plugin_name)
    × (done.target ≡ res.target)
    × (done.timestamp ≡ res.timestamp)
    × StatusFits none done

finished-Fits :
    (name : String) (target : Target) (ts : Time) (out : Fallible Result)
    → Fits (started name target ts) out
    → let done = finished (started name target ts) out in
      (done.0.plugin_name ≡ name)
      × (done.0.target ≡ target)
      × (done.0.timestamp ≢ none)
      × StatusFits done.1 done.0
finished-Fits name target ts (ok done) (n, t, s, h) = (n, t, λ z. ground arith, h)
finished-Fits name target ts (err e) h = (refl, refl, λ z. cc, (refl, refl))

module _ {W : Type 0} where
  >>=-Fits :
      {A : Type 0} (m : Attempt W A) (f : A → Attempt W Result) (res : Result)
      → ((a : A) (w : W) → Fits res (f a w).0)
      → (w : W) → Fits res ((m >>= f) w).0
  unfolding ◌>>=◌
  >>=-Fits m f res h w = elim (Fallible-cases (m w).0) [
    | inl (a, e) ↦ rw (Fits, ◌>>=◌, e) (h a (m w).1)
    | inr (e', e) ↦ rw (Fits, ◌>>=◌, e) tt
  ]

  module _ {F : Type 0} (p : Platform W F) where
    execute_with-Fits :
        (name : String) (body : ExecuteInput → Result → Attempt W Result)
        → ((input : ExecuteInput) (res : Result) (w : W) → Fits res (body input res w).0)
        → (input : ExecuteInput) (w : W)
        → let out = execute_with p name body input w in
          (out.0.0.plugin_name ≡ name)
          × (out.0.0.target ≡ input.target)
          × (out.0.0.timestamp ≢ none)
          × StatusFits out.0.1 out.0.0
    unfolding execute_with
    execute_with-Fits name body h input w =
        finished-Fits name input.target (p.now w).0 _ (h input _ _)

module _ {W F O : Type 0} (p : Platform W F) (k : Kit O) (context : Option (Client W O)) where
  after_apply-Fits :
      (decode : String → Fallible MeshParams)
      (decode_changes : Value → Fallible (List BackendChange)) (c : Client W O)
      (params : MeshParams) (namespace : String) (res : Result)
      (out : Bool × List BackendChange × O) (w : W)
      → Fits res (after_apply p k decode decode_changes context c params namespace res out w).0
  after_apply-Fits decode decode_changes c params namespace res (false, changes, route) w = tt
  after_apply-Fits decode decode_changes c params namespace res (true, [], route) w =
      (refl, refl, refl, inr refl)
  after_apply-Fits decode decode_changes c params namespace res (true, change ∷ changes, route) w =
      >>=-Fits _ _ res (λ _ w'. (refl, refl, refl, inl refl)) w

  mesh_shift-Fits :
      (decode : String → Fallible MeshParams)
      (decode_changes : Value → Fallible (List BackendChange)) (input : ExecuteInput) (res : Result)
      (w : W)
      → Fits res (shift_body p k decode decode_changes context input res w).0
  unfolding shift_body
  mesh_shift-Fits decode decode_changes input res = >>=-Fits _ _ res λ params. >>=-Fits _ _ res λ c.
      >>=-Fits _ _ res
        λ route. >>=-Fits _ _ res λ out. after_apply-Fits decode decode_changes c params _ res out

  isolate_with-Fits :
      (decode : String → Fallible IsolateParams) (c : Client W O) (input : ExecuteInput)
      (params : IsolateParams) (res : Result) (selector : Assoc String) (w : W)
      → Fits res (isolate_with p k decode context c input params res selector w).0
  isolate_with-Fits decode c input params res [] w = tt
  isolate_with-Fits decode c input params res (pair ∷ rest) w =
      >>=-Fits _ _ res (λ _ w'. (refl, refl, refl, inl refl)) w

  network_isolate-Fits :
      (decode : String → Fallible IsolateParams) (input : ExecuteInput) (res : Result) (w : W)
      → Fits res (isolate_body p k decode context input res w).0
  unfolding isolate_body
  network_isolate-Fits decode input res = >>=-Fits _ _ res λ params.
      >>=-Fits _ _ res
        λ c. >>=-Fits _ _ res λ selector. isolate_with-Fits decode c input params res selector

  annotate_object-Fits :
      (decode : String → Fallible AnnotateParams) (c : Client W O) (input : ExecuteInput)
      (params : AnnotateParams) (obj : O) (res : Result) (w : W)
      → Fits res (annotate_object p k decode context c input params obj res w).0
  unfolding annotate_object
  annotate_object-Fits decode c input params obj res w =
      elim (Bool-cases (
        is_present (lookup params.key (or_empty (k.annotations obj))) && not (overwrites params))) [
          | inl kept ↦ rw (Fits, kept) (refl, refl, refl, inr refl)
          | inr written ↦
              rw (Fits, written)
                (>>=-Fits _ _ res (λ value. >>=-Fits _ _ res (λ _ w'. (refl, refl, refl, inl refl)))
                  w)
        ]

  k8s_annotate-Fits :
      (decode : String → Fallible AnnotateParams) (input : ExecuteInput) (res : Result) (w : W)
      → Fits res (annotate_body p k decode context input res w).0
  unfolding annotate_body
  k8s_annotate-Fits decode input res = >>=-Fits _ _ res λ params.
      >>=-Fits _ _ res
        λ c. >>=-Fits _ _ res λ obj. annotate_object-Fits decode c input params obj res

  suspend_with-Fits :
      (decode : String → Fallible String) (c : Client W O) (input : ExecuteInput) (res : Result)
      (reason : String) (app : O) (found : Option Fields) (w : W)
      → Fits res (suspend_with p k decode context c input res reason app found w).0
  suspend_with-Fits decode c input res reason app none w = (refl, refl, refl, inr refl)
  suspend_with-Fits decode c input res reason app (some fields) w =
      >>=-Fits _ _ res (λ previous. >>=-Fits _ _ res (λ _ w'. (refl, refl, refl, inl refl))) w

  argocd_suspend-Fits :
      (decode : String → Fallible String) (input : ExecuteInput) (res : Result) (w : W)
      → Fits res (suspend_body p k decode context input res w).0
  unfolding suspend_body
  argocd_suspend-Fits decode input res w =
      elim (Bool-cases (not (is_application p k decode context input.target))) [
        | inl other ↦ rw (Fits, other) tt
        | inr ours ↦
            rw (Fits, ours)
              ((>>=-Fits _ _ res λ given. >>=-Fits _ _ res λ c.
                  >>=-Fits _ _ res λ app.
                    >>=-Fits _ _ res λ found. suspend_with-Fits decode c input res _ app found)
                w)
      ]

  notify_slack-Fits :
      (decode : String → Fallible SlackParams) (encode : Assoc String → Fallible String)
      (build : String → String → Option Error) (send : String → String → W → Fallible ℤ × W)
      (input : ExecuteInput) (res : Result) (w : W)
      → Fits res (slack_body p k decode encode build send context input res w).0
  unfolding slack_body
  notify_slack-Fits decode encode build send input res = >>=-Fits _ _ res λ params.
      >>=-Fits _ _ res λ c.
        >>=-Fits _ _ res
          λ url. >>=-Fits _ _ res λ text. >>=-Fits _ _ res λ _ w'. (refl, refl, refl, inl refl)

  -- Every built-in plugin, whatever its input and the cluster: the result of Execute carries the
  -- plugin's name, the target that was asked for and a time; with an error the status is Failed and
  -- the details are empty, and without one it is Succeeded or Skipped. So the executor finds no status
  -- to fill in, and nothing that failed can be mistaken for something to reverse.
  pub built_in-FulfilsContract :
      (codecs : Codecs W) → All FulfilsContract (built_in p k codecs context)
  unfolding argocd_suspend k8s_annotate mesh_shift network_isolate notify_slack
  built_in-FulfilsContract codecs = (
    execute_with-Fits p _ (suspend_body p k codecs.reason context)
        (argocd_suspend-Fits codecs.reason),
    (
      execute_with-Fits p _ (annotate_body p k codecs.annotate_params context)
          (k8s_annotate-Fits codecs.annotate_params),
      (
        execute_with-Fits p _ (shift_body p k codecs.mesh_params codecs.changes context)
            (mesh_shift-Fits codecs.mesh_params codecs.changes),
        (
          execute_with-Fits p _ (isolate_body p k codecs.isolate_params context)
              (network_isolate-Fits codecs.isolate_params),
          (
            execute_with-Fits p _
                (slack_body p k codecs.slack_params codecs.encode_payload codecs.new_request
                  codecs.send context)
                (notify_slack-Fits codecs.slack_params codecs.encode_payload codecs.new_request
                  codecs.send),
            tt,
          ),
        ),
      ),
    ),
  )
