-- ===== src/Prelude/Outcomes.antt =====
-- What holds of the result of code that may fault: the rules for its steps.
use mathlib.Core.Bool.{Bool, true, false}
use mathlib.Core.Path.{◌≡◌, refl}
use rn.Prelude.Tests.{if◌then◌else◌}
use rn.Prelude.Memory.{Exec, ok, fault, unfinished, ◌>>=◌}

pub data Ensures {ℓ κ} {A : Type ℓ} (P : A → Type κ) : Exec A → Type (ℓ ⊔ κ) where
  ends : {a : A} → P a → Ensures P (ok a)
  faults : Ensures P fault
  runs_out : Ensures P unfinished

module _ {ℓ κ} {A : Type ℓ} {P : A → Type κ} where
  pub Ensures-any : (m : Exec A) → ((a : A) → P a) → Ensures P m
  Ensures-any (ok a) all = ends (all a)
  Ensures-any fault all = faults
  Ensures-any unfinished all = runs_out

  pub Ensures-if :
      (b : Bool) {m n : Exec A} → Ensures P m → Ensures P n → Ensures P (if b then m else n)
  Ensures-if true p q = p
  Ensures-if false p q = q

  pub Ensures-bind {ℓ' κ'} :
      {B : Type ℓ'} {Q : B → Type κ'} {m : Exec A} {f : A → Exec B}
      → Ensures P m
      → ((a : A) → P a → Ensures Q (f a))
      → Ensures Q (m >>= f)
  Ensures-bind (ends p) next = next _ p
  Ensures-bind faults next = faults
  Ensures-bind runs_out next = runs_out

-- A step of which nothing is used.
pub Ensures-after {ℓ ℓ' κ'} :
    {A : Type ℓ} {B : Type ℓ'} {Q : B → Type κ'} (m : Exec A) {f : A → Exec B}
    → ((a : A) → Ensures Q (f a))
    → Ensures Q (m >>= f)
Ensures-after (ok a) next = next a
Ensures-after fault next = faults
Ensures-after unfinished next = runs_out

-- A computation whose last step only rearranges its result, and what goes on from it.
pub bind_ok_bind {ℓ ℓ' ℓ''} :
    {A : Type ℓ} {B : Type ℓ'} {C : Type ℓ''} (m : Exec A) (f : A → B) (g : B → Exec C)
    → ((m >>= λ a. ok (f a)) >>= g) ≡ (m >>= λ a. g (f a))
bind_ok_bind (ok a) f g = refl
bind_ok_bind fault f g = refl
bind_ok_bind unfinished f g = refl

pub Ensures-ok {ℓ κ} : {A : Type ℓ} {P : A → Type κ} {a : A} → Ensures P (ok a) → P a
Ensures-ok (ends p) = p
