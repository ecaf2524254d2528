-- ===== src/Common/Effects.antt =====
-- Code that reads and writes a state: an action takes a state to its result and the next state.
abbrev pub Act {ℓ} : Type ℓ → Type ℓ → Type ℓ
Act S A = S → A × S

infixl 5 ◌>>=◌ ◌>>◌
abbrev pub ◌>>=◌ {ℓ} : {S A B : Type ℓ} → Act S A → (A → Act S B) → Act S B
◌>>=◌ m f s = f (m s).0 (m s).1

abbrev pub ◌>>◌ {ℓ} : {S A B : Type ℓ} → Act S A → Act S B → Act S B
m >> k = m >>= λ _. k

abbrev pub pure {ℓ} : {S A : Type ℓ} → A → Act S A
pure a s = (a, s)

abbrev pub modify {ℓ} : {S : Type ℓ} → (S → S) → S → Unit {ℓ} × S
modify f s = (tt, f s)
