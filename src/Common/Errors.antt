-- ===== src/Common/Errors.antt =====
-- Go's pair of a value and an error: the value is there exactly when the error is nil.
use Prim.Native.String.{String}
use mathlib.Core.Path.{◌≡◌, refl}
use mathlib.Core.Logic.{◌⊎◌, inl, inr}
use mathlib.Core.Bool.{Bool, true, false}

-- The error classes that the code tells apart, and the text; `panicked` is a run-time panic, which
-- ends the call.
pub data ErrorKind : Type 0 where
  not_found conflict target_not_found invalid_params not_reversible permanent panicked other :
      ErrorKind

pub record Error : Type 0 where
  pub kind : ErrorKind
  pub message : String

pub data Fallible {ℓ} (A : Type ℓ) : Type ℓ where
  ok : A → Fallible A
  err : Error → Fallible A

-- apierrors.IsNotFound and apierrors.IsConflict.
abbrev pub is_not_found : Error → Bool
is_not_found e = elim e.kind [ ErrorKind.not_found ↦ true | _ ↦ false ]

abbrev pub is_conflict : Error → Bool
is_conflict e = elim e.kind [ ErrorKind.conflict ↦ true | _ ↦ false ]

-- errors.Is(err, action.ErrTargetNotFound)
abbrev pub is_target_not_found : Error → Bool
is_target_not_found e = elim e.kind [ ErrorKind.target_not_found ↦ true | _ ↦ false ]

pub Fallible-cases {ℓ} :
    {A : Type ℓ} (r : Fallible A) → ((a : A) × (r ≡ ok a)) ⊎ ((e : Error) × (r ≡ err e))
Fallible-cases (ok a) = inl (a, refl)
Fallible-cases (err e) = inr (e, refl)
