-- ===== src/Base/Actions.antt =====
-- Chains of actions: `if err != nil { return err }` between calls that leave a state each.
use mathlib.Core.Path.{◌≡◌, refl}
use native.Mathlib.Omega.{arith}
use mathlib.Core.Logic.{inl, inr}
use env_vault.Base.Results.{Result, ok, err, Action, Result-cases}

abbrev pub return : {S A : Type 0} → A → Action S A
return a s = (ok a, s)

-- a call that only reads
abbrev pub read : {S A : Type 0} → (S → Result A) → Action S A
read f s = (f s, s)

abbrev continue : {S A B : Type 0} → (A → Action S B) → Result A → Action S B
continue f (err e) s = (err e, s)
continue f (ok a) s = f a s

infixl 5 ◌>>=◌ ◌>>◌
abbrev pub ◌>>=◌ : {S A B : Type 0} → Action S A → (A → Action S B) → Action S B
(◌>>=◌) m f s = let (r, s') = m s in continue f r s'

abbrev pub ◌>>◌ : {S B : Type 0} → Action S (Unit {0}) → Action S B → Action S B
(◌>>◌) m k s = let (r, s') = m s in continue (λ _. k) r s'

-- What a chain that succeeds has gone through, and the state that it leaves.
pub then-leaves :
    {S B : Type 0} (m : Action S (Unit {0})) (k : Action S B) (s : S) {b : B}
    → (◌>>◌ m k s).0 ≡ ok b
    → ((m s).0 ≡ ok tt) × ((k (m s).1).0 ≡ ok b) × ((◌>>◌ m k s).1 ≡ (k (m s).1).1)
then-leaves m k s h = elim (Result-cases (m s).0) [
  | inl (_, done) ↦ (done, rw done at h, rw done refl)
  | inr (e, failed) ↦ absurd (ground arith)
]

pub bind-leaves :
    {S A B : Type 0} (m : Action S A) (f : A → Action S B) (s : S) {b : B}
    → (◌>>=◌ m f s).0 ≡ ok b
    → (a : A) × ((m s).0 ≡ ok a) × ((f a (m s).1).0 ≡ ok b) × ((◌>>=◌ m f s).1 ≡ (f a (m s).1).1)
bind-leaves m f s h = elim (Result-cases (m s).0) [
  | inl (a, done) ↦ (a, done, rw done at h, rw done refl)
  | inr (e, failed) ↦ absurd (ground arith)
]
