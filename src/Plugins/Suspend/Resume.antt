-- ===== src/Plugins/Suspend/Resume.antt =====
-- plugins/argocd-suspend: an application suspended and resumed.
use reactive_policy.Common.{
  String, [], none, some, Assoc, lookup, insert, erase, lookup-insert, lookup-erase, ok, str_eq,
  if◌then◌else◌, ◌≡◌, sym, ap, ◌∙◌, inl, inr, Option-cases, arith,
}
use reactive_policy.Action.Types.{Value, Fields}
use reactive_policy.Plugins.Kit.{Kit}
use reactive_policy.Plugins.Annotate.{or_empty}
use reactive_policy.Plugins.Annotate.Undo.{ReadsBack}
use reactive_policy.Plugins.Suspend.{
  suspended, set_annotation, remove_annotation, resumed_app, sync_policy, automated,
  reason_annotation,
}

-- The helpers of `unstructured` on the sync policy and the annotations: a map found in a field is
-- in an object, which stays when the map is removed; a field can be set where one is found, and is
-- read back; the annotations and the policy are apart.
pub record IsSyncLens {O : Type 0} (k : Kit O) : Type 0 where
  pub in_object :
      (obj : O) (found : Fields)
      → k.nested_map automated obj ≡ ok (some found)
      → (policy : Fields) × (k.nested_field_copy sync_policy obj ≡ ok (some (Value.object policy)))
  pub still_there :
      (obj : O) (found : Fields)
      → k.nested_map automated obj ≡ ok (some found)
      → (left : Value) × (k.nested_field_copy sync_policy (k.remove_nested_field automated obj)
          ≡ ok (some left))
  pub settable :
      (obj : O) (left value : Value)
      → k.nested_field_copy sync_policy obj ≡ ok (some left)
      → (obj' : O) × (k.set_nested_field sync_policy value obj ≡ ok obj')
  pub policy_back :
      (obj obj' : O) (value : Value)
      → k.set_nested_field sync_policy value obj ≡ ok obj'
      → k.nested_field_copy sync_policy obj' ≡ ok (some value)
  pub annotations_back : ReadsBack k
  pub apart_annotate :
      (m : Assoc String) (obj : O)
      → k.nested_field_copy sync_policy (k.set_annotations m obj)
        ≡ k.nested_field_copy sync_policy obj
  pub apart_set :
      (obj obj' : O) (value : Value)
      → k.set_nested_field sync_policy value obj ≡ ok obj'
      → k.annotations obj' ≡ k.annotations obj
  pub apart_remove :
      (obj : O) → k.annotations (k.remove_nested_field automated obj) ≡ k.annotations obj

module _ {O : Type 0} (k : Kit O) (lens : IsSyncLens k) where
  annotations-set_annotation :
      (obj : O) (key value : String)
      → k.annotations (set_annotation k obj key value)
        ≡ some (insert key value (or_empty (k.annotations obj)))
  unfolding set_annotation
  annotations-set_annotation obj key value = elim (Option-cases (k.annotations obj)) [
    | inl e ↦ ground (arith, lens.annotations_back (insert key value []) obj)
    | inr (m, e) ↦ ground (arith, lens.annotations_back (insert key value m) obj)
  ]

  policy-set_annotation :
      (obj : O) (key value : String)
      → k.nested_field_copy sync_policy (set_annotation k obj key value)
        ≡ k.nested_field_copy sync_policy obj
  unfolding set_annotation
  policy-set_annotation obj key value = elim (Option-cases (k.annotations obj)) [
    | inl e ↦ ground (arith, lens.apart_annotate (insert key value []) obj)
    | inr (m, e) ↦ ground (arith, lens.apart_annotate (insert key value m) obj)
  ]

  annotations-remove_annotation :
      (obj : O) (key : String) (m : Assoc String)
      → k.annotations obj ≡ some m
      → k.annotations (remove_annotation k obj key) ≡ some (erase key m)
  unfolding remove_annotation
  annotations-remove_annotation obj key m e =
      ground (arith, lens.annotations_back (erase key m) obj)

  policy-remove_annotation :
      (obj : O) (key : String)
      → k.nested_field_copy sync_policy (remove_annotation k obj key)
        ≡ k.nested_field_copy sync_policy obj
  unfolding remove_annotation
  policy-remove_annotation obj key = elim (Option-cases (k.annotations obj)) [
    | inl e ↦ ground arith
    | inr (m, e) ↦ ground (arith, lens.apart_annotate (erase key m) obj)
  ]

  -- The application that Reverse writes, after an Execute that suspended `app`
  abbrev pub Resumed : O → O → Type 0
  Resumed app back =
      (k.nested_field_copy sync_policy back ≡ k.nested_field_copy sync_policy app)
      × ((name : String)
          → lookup name (or_empty (k.annotations back)) ≡ (
              if str_eq reason_annotation name
              then none
              else lookup name (or_empty (k.annotations app))))

  pub resumed_app-suspended :
      (app : O) (reason : String) (found policy : Fields)
      → k.nested_map automated app ≡ ok (some found)
      → k.nested_field_copy sync_policy app ≡ ok (some (Value.object policy))
      → (back : O) × (resumed_app k (suspended k app reason) (some (Value.object policy)) ≡ ok back)
        × Resumed app back
  unfolding resumed_app suspended
  resumed_app-suspended app reason found policy is_found was =
      let bare = k.remove_nested_field automated app in
      let app1 = set_annotation k bare reason_annotation reason in
      let (left, there) = lens.still_there app found is_found in
      let (app2, set) =
        lens.settable app1 left (Value.object policy)
          (policy-set_annotation bare reason_annotation reason ∙ there) in
      let before = or_empty (k.annotations app) in
      let noted : k.annotations app2 ≡ some (insert reason_annotation reason before) =
        lens.apart_set app1 app2 (Value.object policy) set
        ∙ annotations-set_annotation bare reason_annotation reason
        ∙ ap (λ m. some (insert reason_annotation reason (or_empty m))) (lens.apart_remove app) in
      (
        remove_annotation k app2 reason_annotation,
        ground (arith, set),
        (
          policy-remove_annotation app2 reason_annotation
              ∙ lens.policy_back app1 app2 (Value.object policy) set
              ∙ sym was,
          λ name.
              ap (λ m. lookup name (or_empty m))
                (annotations-remove_annotation app2 reason_annotation
                  (insert reason_annotation reason before) noted)
              ∙ rw (lookup-erase, lookup-insert) (ground arith),
        ),
      )
