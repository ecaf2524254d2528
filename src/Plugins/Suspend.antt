-- ===== src/Plugins/Suspend.antt =====
-- plugins/argocd-suspend: stop the automatic sync of an ArgoCD Application, and set it going again.
-- The decoding of its params is encoding/json's.
pub mod Resume
pub mod Undo
use reactive_policy.Common.{
  String, List, [], ◌∷◌, Option, none, some, Bool, true, ◌&&◌, not, lookup, insert, erase, Error,
  is_target_not_found, Fallible, ok, err, str_eq, if◌then◌else◌,
}
use reactive_policy.Api.{ResultStatus, RawParams}
use reactive_policy.Platform.{Platform, Arg, wrap}
use reactive_policy.Action.Types.{Target, Value, Fields, Result, ExecuteInput, Plugin}
use reactive_policy.Plugins.Kit.{
  Client, Kit, Attempt, ◌>>=◌, lift, checked, or_else, permanent, invalid_params, client_from,
  execute_with, unmarshal, get_object,
}

abbrev pub reason_annotation : String
reason_annotation = "reactive-policy.io/suspend-reason"

abbrev pub application_version : String
application_version = "argoproj.io/v1alpha1"

abbrev pub application_kind : String
application_kind = "Application"

abbrev pub sync_policy : List String
sync_policy = "spec" ∷ "syncPolicy" ∷ []

abbrev pub automated : List String
automated = "spec" ∷ "syncPolicy" ∷ "automated" ∷ []

-- A field that is not found is nil.
abbrev pub or_null : Option Value → Value
or_null none = Value.null
or_null (some value) = value

module _ {O : Type 0} (k : Kit O) where
  -- setAnnotation
  unfoldable pub set_annotation : O → String → String → O
  unfolding insert
  set_annotation obj key value = elim (k.annotations obj) [
    | none ↦ k.set_annotations (insert key value []) obj
    | some annotations ↦ k.set_annotations (insert key value annotations) obj
  ]

  -- removeAnnotation
  unfoldable pub remove_annotation : O → String → O
  unfolding erase
  remove_annotation obj key = elim (k.annotations obj) [
    | none ↦ obj
    | some annotations ↦ k.set_annotations (erase key annotations) obj
  ]

  -- What Execute does to the application
  unfoldable pub suspended : O → String → O
  unfolding set_annotation
  suspended app reason =
      set_annotation (k.remove_nested_field automated app) reason_annotation reason

  abbrev set_policy : O → Option Value → Fallible O
  set_policy app none = ok app
  set_policy app (some Value.null) = ok app
  set_policy app (some value) = k.set_nested_field sync_policy value app

  -- What Reverse does to it, given the recorded policy
  unfoldable pub resumed_app : O → Option Value → Fallible O
  unfolding remove_annotation
  resumed_app app previous = elim (set_policy app previous) [
    | err e ↦ err e
    | ok app' ↦ ok (remove_annotation app' reason_annotation)
  ]

module _ {W F O : Type 0} (p : Platform W F) (k : Kit O) (decode : String → Fallible String)
    (context : Option (Client W O)) where
  -- plugin.Validate
  unfoldable pub validate_suspend : RawParams → Option Error
  unfolding unmarshal
  validate_suspend raw = elim (unmarshal p k decode raw) [ err e ↦ some e | ok reason ↦ none ]

  abbrev pub is_application : Target → Bool
  is_application target =
      str_eq target.api_version application_version && str_eq target.kind application_kind

  -- getApplication
  unfoldable pub get_application : Client W O → Target → Attempt W O
  unfolding get_object
  get_application c = get_object p c "%w: %s/%s" "getting application %s/%s: %w"

  abbrev target_args : Target → List Arg
  target_args target = Arg.text target.namespace ∷ Arg.text target.name ∷ []

  abbrev pub reading : {A : Type 0} → String → Fallible A → Fallible A
  reading format (ok a) = ok a
  reading format (err e) = err (wrap p format [] e)

  abbrev pub suspend_with :
      Client W O → ExecuteInput → Result → String → O → Option Fields → Attempt W Result
  suspend_with c input res reason app none = lift (
      ok (record res { status = ResultStatus.skipped; message = "auto-sync is already suspended" }))
  suspend_with c input res reason app (some fields) = do
    previous ← lift (reading "reading spec.syncPolicy: %w" (k.nested_field_copy sync_policy app))
    done ←
        checked (c.update (suspended k app reason))
          (wrap p "suspending application %s/%s: %w" (target_args input.target))
    lift (
        ok (record res {
          status = ResultStatus.succeeded;
          message =
              p.sprintf "suspended auto-sync on Application %s" (Arg.text input.target.name ∷ []);
          details = ("previousSyncPolicy", or_null previous) ∷ ("reason", Value.text reason) ∷ [];
        }))

  -- plugin.Execute
  unfoldable pub suspend_body : ExecuteInput → Result → Attempt W Result
  unfolding unmarshal get_application suspended
  suspend_body input res =
      if not (is_application input.target)
      then lift (
          err (
            invalid_params p "%w: target must be %s/%s, got %s/%s" (
              Arg.text application_version
              ∷ Arg.text application_kind
              ∷ Arg.text input.target.api_version
              ∷ Arg.text input.target.kind
              ∷ [])))
      else do
        given ← lift (unmarshal p k decode input.params)
        let reason = or_else given "auto-suspended by reactive-policy"
        c ← client_from p context
        app ← get_application c input.target
        found ← lift (reading "reading spec.syncPolicy.automated: %w" (k.nested_map automated app))
        suspend_with c input res reason app found

  abbrev pub write_back : Client W O → Result → Fallible O → W → Option Error × W
  write_back c prev (err e) w = (some (wrap p "restoring spec.syncPolicy: %w" [] e), w)
  write_back c prev (ok app) w = elim (c.update app w).0 [
    | none ↦ (none, (c.update app w).1)
    | some e ↦ (
      some (wrap p "restoring application %s/%s: %w" (target_args prev.target) e),
      (c.update app w).1,
    )
  ]

  abbrev pub resume_with : Client W O → Result → Fallible O → W → Option Error × W
  resume_with c prev (err e) w = if is_target_not_found e then (none, w) else (some e, w)
  resume_with c prev (ok app) w =
      write_back c prev (resumed_app k app (lookup "previousSyncPolicy" prev.details)) w

  -- plugin.Reverse
  unfoldable pub reverse_suspend : Result → W → Option Error × W
  unfolding get_application resumed_app lookup
  reverse_suspend prev w = elim context [
    | none ↦ (some (permanent p "%w: no Kubernetes client available" []), w)
    | some c ↦ let (answer, w') = get_application c prev.target w in resume_with c prev answer w'
  ]

  unfoldable pub argocd_suspend : Plugin W
  unfolding validate_suspend suspend_body execute_with reverse_suspend
  argocd_suspend = record {
    name = "argocd.suspend";
    description = "Suspends auto-sync on a target ArgoCD Application.";
    validate = validate_suspend;
    execute = execute_with p "argocd.suspend" suspend_body;
    reverse = reverse_suspend;
    is_reversible = true;
    required_permissions =
        record {
          api_groups = "argoproj.io" ∷ [];
          resources = "applications" ∷ [];
          verbs = "get" ∷ "patch" ∷ "update" ∷ [];
        }
        ∷ [];
  }
