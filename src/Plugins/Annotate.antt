-- ===== src/Plugins/Annotate.antt =====
-- plugins/k8s-annotate: an annotation on the target. The decoding of its params is encoding/json's.
pub mod Undo
use reactive_policy.Common.{
  String, [], ◌∷◌, Option, none, some, Bool, true, false, not, ◌&&◌, Assoc, lookup, insert, erase,
  Error, Fallible, ok, err, str_eq, if◌then◌else◌,
}
use reactive_policy.Api.{ResultStatus, RawParams}
use reactive_policy.Platform.{Platform, Arg, wrap}
use reactive_policy.Action.Types.{Target, Value, Result, ExecuteInput, Plugin}
use reactive_policy.Plugins.Kit.{
  Client, Kit, Attempt, ◌>>=◌, lift, checked, text_of, permanent, invalid_params, client_from,
  execute_with, unmarshal, get_object, is_gone, validate_template, render_template, rejected,
}

-- params; `none` is a nil pointer
pub record AnnotateParams : Type 0 where
  pub key : String
  pub template : String
  pub overwrite : Option Bool

abbrev pub overwrites : AnnotateParams → Bool
overwrites params = elim params.overwrite [ none ↦ true | some b ↦ b ]

abbrev pub is_present : Option String → Bool
is_present none = false
is_present (some value) = true

-- A nil map is read as an empty one.
abbrev pub or_empty : Option (Assoc String) → Assoc String
or_empty none = []
or_empty (some m) = m

module _ {W F O : Type 0} (p : Platform W F) (k : Kit O) (decode : String → Fallible AnnotateParams)
    (context : Option (Client W O)) where
  -- plugin.Validate
  unfoldable pub validate_annotate : RawParams → Option Error
  unfolding unmarshal validate_template
  validate_annotate raw = elim (unmarshal p k decode raw) [
    | err e ↦ some e
    | ok params ↦
        if str_eq params.key ""
        then some (invalid_params p "%w: key is required" [])
        else if str_eq params.template ""
        then some (invalid_params p "%w: value is required" [])
        else rejected p (validate_template p k params.template)
  ]

  -- getTarget
  unfoldable pub get_target : Client W O → Target → Attempt W O
  unfolding get_object
  get_target c = get_object p c "%w: %s/%s" "getting target %s/%s: %w"

  unfoldable pub annotate_object :
      Client W O → ExecuteInput → AnnotateParams → O → Result → Attempt W Result
  unfolding render_template insert lookup
  annotate_object c input params obj res =
      if is_present (lookup params.key (or_empty (k.annotations obj))) && not (overwrites params)
      then lift (
          ok (record res {
            status = ResultStatus.skipped;
            message =
                p.sprintf "annotation %q already present and overwrite is false"
                  (Arg.text params.key ∷ []);
          }))
      else do
        value ← lift (render_template p k params.template input.template_data)
        done ←
            checked
              (c.update
                (k.set_annotations (insert params.key value (or_empty (k.annotations obj))) obj))
              (wrap p "annotating %s/%s: %w"
                (Arg.text input.target.namespace ∷ Arg.text input.target.name ∷ []))
        lift (
            ok (record res {
              status = ResultStatus.succeeded;
              message = p.sprintf "annotated %s %s with %q" (
                  Arg.text input.target.kind
                  ∷ Arg.text input.target.name
                  ∷ Arg.text params.key
                  ∷ []);
              details = ("key", Value.text params.key) ∷ ("value", Value.text value) ∷ [];
            }))

  -- plugin.Execute
  unfoldable pub annotate_body : ExecuteInput → Result → Attempt W Result
  unfolding unmarshal get_target annotate_object
  annotate_body input res = do
    params ← lift (unmarshal p k decode input.params)
    c ← client_from p context
    obj ← get_target c input.target
    annotate_object c input params obj res

  abbrev pub remove_from : Client W O → String → Fallible O → W → Option Error × W
  remove_from c key (err e) w = (some e, w)
  remove_from c key (ok obj) w =
      let annotations = or_empty (k.annotations obj) in
      if is_present (lookup key annotations)
      then elim (c.update (k.set_annotations (erase key annotations) obj) w).0 [
        | none ↦ (none, (c.update (k.set_annotations (erase key annotations) obj) w).1)
        | some e ↦ (
          some (wrap p "removing annotation %q: %w" (Arg.text key ∷ []) e),
          (c.update (k.set_annotations (erase key annotations) obj) w).1,
        )
      ]
      else (none, w)

  unfoldable pub reverse_of : String → Target → W → Option Error × W
  unfolding get_target lookup erase
  reverse_of key target w =
      if str_eq key ""
      then (some (invalid_params p "%w: result has no annotation key to reverse" []), w)
      else elim context [
        | none ↦ (some (permanent p "%w: no Kubernetes client available" []), w)
        | some c ↦
            let (answer, w') = get_target c target w in
            if is_gone answer then (none, w') else remove_from c key answer w'
      ]

  -- plugin.Reverse
  unfoldable pub reverse_annotate : Result → W → Option Error × W
  unfolding reverse_of lookup
  reverse_annotate prev w = reverse_of (text_of (lookup "key" prev.details)) prev.target w

  unfoldable pub k8s_annotate : Plugin W
  unfolding validate_annotate annotate_body execute_with reverse_annotate
  k8s_annotate = record {
    name = "k8s.annotate";
    description = "Adds or updates an annotation on the target resource.";
    validate = validate_annotate;
    execute = execute_with p "k8s.annotate" annotate_body;
    reverse = reverse_annotate;
    is_reversible = true;
    required_permissions =
        record {
          api_groups = "*" ∷ [];
          resources = "*" ∷ [];
          verbs = "get" ∷ "patch" ∷ "update" ∷ [];
        }
        ∷ [];
  }
