-- ===== src/Plugins/Annotate/Undo.antt =====
-- What a Reverse of k8s.annotate leaves of an annotation.
use reactive_policy.Common.{
  String, [], ◌∷◌, Option, none, some, true, false, not, ◌&&◌, Assoc, lookup, insert, erase,
  lookup-insert, lookup-erase, eq_self, Error, Fallible, ok, str_eq, if◌then◌else◌, ◌≡◌, refl, sym,
  ap, ◌∙◌, subst, inl, inr, Bool-cases, Fallible-cases, arith,
}
use reactive_policy.Api.{ResultStatus}
use reactive_policy.Platform.{Platform}
use reactive_policy.Action.Types.{Value, Details, Result, ExecuteInput}
use reactive_policy.Plugins.Kit.{Client, Kit, ◌>>=◌, text_of, started, render_template, unmarshal}
use reactive_policy.Plugins.Annotate.{
  AnnotateParams, k8s_annotate, annotate_body, annotate_object, get_target, reverse_annotate,
  reverse_of, is_present, or_empty, overwrites, remove_from,
}
use reactive_policy.Plugins.Steps.{
  Holds, >>=-step, >>=-failed, err-ne-ok, execute_with-succeeded, get_object-at,
}

-- The annotations that were set are read back.
abbrev pub ReadsBack : {O : Type 0} → Kit O → Type 0
ReadsBack {O} k = (m : Assoc String) (obj : O) → k.annotations (k.set_annotations m obj) ≡ some m

module _ {W F O : Type 0} (p : Platform W F) (k : Kit O) (decode : String → Fallible AnnotateParams)
    (c : Client W O) (input : ExecuteInput) (at : W → O) (holds : Holds p c input.target at)
    (reads : ReadsBack k) where
  -- An Execute that annotated
  abbrev Annotated : AnnotateParams → Result → W → W → Type 0
  Annotated params done w w' =
      (value : String) × (done.details
        ≡ ("key", Value.text params.key) ∷ ("value", Value.text value) ∷ [])
      × (done.target ≡ input.target)
      × (k.annotations (at w') ≡ some (insert params.key value (or_empty (k.annotations (at w)))))

  annotate_object-Annotated :
      (params : AnnotateParams) (name : String) (w0 w w' : W) (done : Result)
      → annotate_object p k decode
          (some c)
          c
          input
          params
          (at w)
          (started name input.target (p.now w0).0)
          w
        ≡ (ok done, w')
      → done.status ≡ ResultStatus.succeeded
      → Annotated params done w w'
  unfolding annotate_object ◌>>=◌
  annotate_object-Annotated params name w0 w w' done h s =
      elim (Bool-cases (
        is_present (lookup params.key (or_empty (k.annotations (at w))))
        && not (overwrites params))) [
          | inl kept ↦ ground arith
          | inr written ↦
              elim (Fallible-cases (render_template p k params.template input.template_data)) [
                | inl (value, e) ↦
                    let obj' =
                      k.set_annotations (insert params.key value (or_empty (k.annotations (at w))))
                        (at w) in
                    (
                      value,
                      ground (arith, holds.updated obj' w),
                      ground (arith, holds.updated obj' w),
                      ground (
                        arith,
                        holds.updated obj' w,
                        holds.stored obj' w,
                        reads (insert params.key value (or_empty (k.annotations (at w)))) (at w),
                      ),
                    )
                | inr (failure, e) ↦ ground arith
              ]
        ]

  annotate_body-annotate_object :
      (params : AnnotateParams) (res : Result) (w : W)
      → unmarshal p k decode input.params ≡ ok params
      → annotate_body p k decode (some c) input res w
        ≡ annotate_object p k decode (some c) c input params (at w) res w
  unfolding annotate_body get_target
  annotate_body-annotate_object params res w e =
      >>=-step _ _ w w params (ap (λ r. (r, w)) e)
      ∙ >>=-step _ _ w w c refl
      ∙ >>=-step _ _ w w (at w) (get_object-at p c input.target at holds _ _ w)

  annotate_body-Annotated :
      (name : String) (w0 w' : W) (done : Result)
      → annotate_body p k decode
          (some c)
          input
          (started name input.target (p.now w0).0)
          (p.now w0).1
        ≡ (ok done, w')
      → done.status ≡ ResultStatus.succeeded
      → (params : AnnotateParams) × Annotated params done (p.now w0).1 w'
  unfolding annotate_body
  annotate_body-Annotated name w0 w' done h s =
      let w = (p.now w0).1 in
      let res = started name input.target (p.now w0).0 in
      elim (Fallible-cases (unmarshal p k decode input.params)) [
        | inl (params, e) ↦ (
          params,
          annotate_object-Annotated params name w0 w w' done
              (sym (annotate_body-annotate_object params res w e) ∙ h) s,
        )
        | inr (failure, e) ↦
            let stopped = >>=-failed _ _ w w failure (ap (λ r. (r, w)) e) in
            absurd (err-ne-ok failure done w w' (sym stopped ∙ h))
      ]

  -- The annotations after an erasure of a key that is there
  remove_from-at :
      (key value : String) (before : Assoc String) (w : W)
      → k.annotations (at w) ≡ some (insert key value before)
      → let out = remove_from p k decode (some c) c key (ok (at w)) w in
        (out.0 ≡ none) × (k.annotations (at out.1) ≡ some (erase key (insert key value before)))
  remove_from-at key value before w e =
      let obj' = k.set_annotations (erase key (insert key value before)) (at w) in
      let there : is_present (lookup key (insert key value before)) ≡ true =
        rw (lookup-insert, eq_self) in
      (
        ground (arith, e, there, holds.updated obj' w),
        ground (
          arith,
          e,
          there,
          holds.updated obj' w,
          holds.stored obj' w,
          reads (erase key (insert key value before)) (at w),
        ),
      )

  reverse_of-at :
      (key : String) (w : W)
      → str_eq key "" ≡ false
      → reverse_of p k decode (some c) key input.target w
        ≡ remove_from p k decode (some c) c key (ok (at w)) w
  unfolding reverse_of get_target
  reverse_of-at key w named =
      rw (named, get_object-at p c input.target at holds "%w: %s/%s" "getting target %s/%s: %w" w)

  key_of :
      (done : Result) (key value : String)
      → done.details ≡ ("key", Value.text key) ∷ ("value", Value.text value) ∷ []
      → text_of (lookup "key" done.details) ≡ key
  unfolding lookup
  key_of done key value details = ap (λ (d : Details). text_of (lookup "key" d)) details

  reverse_annotate-at :
      (done : Result) (key value : String) (w : W)
      → done.details ≡ ("key", Value.text key) ∷ ("value", Value.text value) ∷ []
      → done.target ≡ input.target
      → str_eq key "" ≡ false
      → reverse_annotate p k decode (some c) done w
        ≡ remove_from p k decode (some c) c key (ok (at w)) w
  unfolding reverse_annotate
  reverse_annotate-at done key value w details target named =
      ap (λ name. reverse_of p k decode (some c) name done.target w) (key_of done key value details)
      ∙ ap (λ t. reverse_of p k decode (some c) key t w) target
      ∙ reverse_of-at key w named

  Undone : Result → W → W → Type 0
  Undone done w w1 =
      let key = text_of (lookup "key" done.details) in
      str_eq key "" ≡ false
      → let back = reverse_annotate p k decode (some c) done w1 in
        (back.0 ≡ none)
        × ((name : String)
            → lookup name (or_empty (k.annotations (at back.1)))
              ≡ (if str_eq key name then none else lookup name (or_empty (k.annotations (at w)))))

  Annotated-Undone :
      (params : AnnotateParams) (done : Result) (w w1 : W)
      → Annotated params done (p.now w).1 w1
      → Undone done w w1
  unfolding Undone
  Annotated-Undone params done w w1 (value, details, target, now) named =
      let before = or_empty (k.annotations (at w)) in
      let key = key_of done params.key value details in
      let named' = subst (λ n. str_eq n "" ≡ false) key named in
      let now' : k.annotations (at w1) ≡ some (insert params.key value before) =
        now
        ∙ ap (λ obj. some (insert params.key value (or_empty (k.annotations obj))))
            (holds.now_at w) in
      let (fine, after) = remove_from-at params.key value before w1 now' in
      let same = reverse_annotate-at done params.key value w1 details target named' in
      (
        ap (λ r. r.0) same ∙ fine,
        λ name.
            ap (λ r. lookup name (or_empty (k.annotations (at r.1)))) same
            ∙ ap (λ m. lookup name (or_empty m)) after
            ∙ rw key (rw (lookup-erase, lookup-insert) (ground arith)),
      )

  -- On a cluster that keeps what it is told, after an Execute that annotated the target, Reverse
  -- succeeds and removes the annotation that the result names; every other annotation is as it was
  -- before Execute. So an annotation that was there before and that Execute overwrote is lost.
  pub reverse-execute :
      (w : W)
      → ((k8s_annotate p k decode (some c)).execute input w).0.0.status ≡ ResultStatus.succeeded
      → str_eq
          (text_of (lookup "key" ((k8s_annotate p k decode (some c)).execute input w).0.0.details))
          ""
        ≡ false
      → let plugin = k8s_annotate p k decode (some c) in
        let out = plugin.execute input w in
        let key = text_of (lookup "key" out.0.0.details) in
        let back = plugin.reverse out.0.0 out.1 in
        (back.0 ≡ none)
        × ((name : String)
            → lookup name (or_empty (k.annotations (at back.1)))
              ≡ (if str_eq key name then none else lookup name (or_empty (k.annotations (at w)))))
  unfolding k8s_annotate Undone
  reverse-execute w h =
      let (done, w1, body, all, s) =
        execute_with-succeeded p "k8s.annotate" (annotate_body p k decode (some c)) input w h in
      let (params, how) = annotate_body-Annotated "k8s.annotate" w w1 done body s in
      subst (λ (out : (Result × Option Error) × W). Undone out.0.0 w out.1) (sym all)
        (Annotated-Undone params done w w1 how)
