-- ===== src/Base/Run.antt =====
-- Code that changes a state and may fail: a function from the state to an optional result and state.
use mathlib.Core.Option.{Option, none, some}
use chud_os.Base.{Bool, if◌then◌else◌}

abbrev pub Run {ℓ κ} : Type ℓ → Type κ → Type (ℓ ⊔ κ)
Run S A = S → Option (A × S)

abbrev continue {ℓ κ} :
    {S : Type ℓ} {A B : Type κ} → Option (A × S) → (A → Run S B) → Option (B × S)
continue none f = none
continue (some (a, s)) f = f a s

infixl 5 ◌>>=◌ ◌>>◌
abbrev pub ◌>>=◌ {ℓ κ} : {S : Type ℓ} {A B : Type κ} → Run S A → (A → Run S B) → Run S B
(m >>= f) s = continue (m s) f

abbrev pub ◌>>◌ {ℓ} : {S : Type ℓ} {A B : Type 0} → Run S A → Run S B → Run S B
m >> k = m >>= λ _. k

abbrev pub pure {ℓ κ} : {S : Type ℓ} {A : Type κ} → A → Run S A
pure a s = some (a, s)

abbrev pub gets {ℓ κ} : {S : Type ℓ} {A : Type κ} → (S → A) → Run S A
gets f s = some (f s, s)

abbrev pub modify {ℓ} : {S : Type ℓ} → (S → S) → Run S (Unit {0})
modify f s = some (tt, f s)

abbrev pub fail {ℓ κ} : {S : Type ℓ} {A : Type κ} → Run S A
fail s = none

abbrev pub when {ℓ} : {S : Type ℓ} → Bool → Run S (Unit {0}) → Run S (Unit {0})
when b m = if b then m else pure tt
