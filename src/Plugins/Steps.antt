-- ===== src/Plugins/Steps.antt =====
-- Executes that succeed, taken apart; and a cluster that keeps what it is told.
use reactive_policy.Common.{
  String, none, Error, Fallible, ok, err, ◌≡◌, ap, inl, inr, Fallible-cases, arith, ◌≢◌,
}
use reactive_policy.Api.{ResultStatus}
use reactive_policy.Platform.{Platform}
use reactive_policy.Action.Types.{Target, Result, ExecuteInput}
use reactive_policy.Plugins.Kit.{
  Client, Attempt, ◌>>=◌, execute_with, started, finished, get_object,
}

-- The client reads and writes the object of a target, without an error and with nothing in between.
-- `at` is the object in a state of the outside, and the clock does not change it.
pub record Holds {W F O : Type 0} (p : Platform W F) (c : Client W O) (target : Target) (at : W → O)
    : Type 0 where
  pub now_at : (w : W) → at (p.now w).1 ≡ at w
  pub got :
      (w : W) → c.get target.api_version target.kind target.namespace target.name w ≡ (ok (at w), w)
  pub updated : (obj : O) (w : W) → (c.update obj w).0 ≡ none
  pub stored : (obj : O) (w : W) → at (c.update obj w).1 ≡ obj

module _ {W : Type 0} where
  -- A step that succeeds, and one that fails.
  pub >>=-step :
      {A B : Type 0} (m : Attempt W A) (f : A → Attempt W B) (w w' : W) (a : A)
      → m w ≡ (ok a, w')
      → (m >>= f) w ≡ f a w'
  unfolding ◌>>=◌
  >>=-step m f w w' a h = rw (◌>>=◌, h) (ap (λ r. f a r.1) h)

  pub >>=-failed :
      {A B : Type 0} (m : Attempt W A) (f : A → Attempt W B) (w w' : W) (e : Error)
      → m w ≡ (err e, w')
      → (m >>= f) w ≡ (err e, w')
  unfolding ◌>>=◌
  >>=-failed m f w w' e h = rw (◌>>=◌, h) (ap (λ r. (err e, r.1)) h)

  pub err-ne-ok :
      {A : Type 0} (e : Error) (a : A) (w w' : W) → ◌≢◌ {A = Fallible A × W} (err e, w) (ok a, w')
  err-ne-ok e a w w' h = ground arith

  module _ {F : Type 0} (p : Platform W F) where
    pub execute_with-succeeded :
        (name : String) (body : ExecuteInput → Result → Attempt W Result) (input : ExecuteInput)
        (w : W)
        → (execute_with p name body input w).0.0.status ≡ ResultStatus.succeeded
        → (done : Result) × (w' : W) × (body input
              (started name input.target (p.now w).0)
              (p.now w).1
            ≡ (ok done, w'))
          × (execute_with p name body input w ≡ ((done, none), w'))
          × (done.status ≡ ResultStatus.succeeded)
    unfolding execute_with
    execute_with-succeeded name body input w h =
        let out = body input (started name input.target (p.now w).0) (p.now w).1 in
        elim (Fallible-cases out.0) [
          | inl (done, e) ↦ (
            done,
            out.1,
            ap (λ r. (r, out.1)) e,
            ap (λ r. (finished (started name input.target (p.now w).0) r, out.1)) e,
            ground arith,
          )
          | inr (failure, e) ↦ ground arith
        ]

    pub get_object-at :
        {O : Type 0} (c : Client W O) (target : Target) (at : W → O)
        → Holds p c target at
        → (missing failing : String) (w : W)
        → get_object p c missing failing target w ≡ (ok (at w), w)
    unfolding get_object
    get_object-at c target at holds missing failing w = ground (arith, holds.got w)
