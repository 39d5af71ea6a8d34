-- ===== src/Common/Outcome.antt =====
-- How a call of the executive ends, and `do` blocks over it.
use mathlib.Core.Path.{◌≡◌, refl}
use mathlib.Core.Logic.{◌⊎◌, inl, inr}

-- The messages with which `plotz` ends the program.
pub data Message : Type 0 where
  wrong_cpu no_memory_block out_of_memory too_many_children too_many_levels bad_timeout_type
        not_user_interrupt no_such_timer timer_not_set :
      Message

-- `spins`: the call waits in a busy loop for another processor. `null_read`: a field of NULL is
-- read. `plotz`: the program prints the message and exits.
pub data Outcome {ℓ} (A : Type ℓ) : Type ℓ where
  done : A → Outcome A
  spins : Outcome A
  null_read : Outcome A
  plotz : Message → Outcome A

infixl 5 ◌>>=◌
abbrev pub ◌>>=◌ {ℓ κ} : {A : Type ℓ} {B : Type κ} → Outcome A → (A → Outcome B) → Outcome B
done a >>= f = f a
spins >>= f = spins
null_read >>= f = null_read
plotz e >>= f = plotz e

pub done-injective {ℓ} : {A : Type ℓ} {x y : A} → done x ≡ done y → x ≡ y
done-injective h = cc

-- A chain that ends has its first call end.
pub done_inv {ℓ κ} :
    {A : Type ℓ} {B : Type κ} (m : Outcome A) (f : A → Outcome B) {b : B}
    → (m >>= f) ≡ done b
    → (a : A) × (m ≡ done a) × (f a ≡ done b)
done_inv (done a) f h = (a, refl, h)
done_inv spins f h = cc
done_inv null_read f h = cc
done_inv (plotz e) f h = cc

-- A call ends with a result, or it makes no difference what follows it.
pub Outcome-cases {ℓ κ} :
    {A : Type ℓ} (B : Type κ) (o : Outcome A)
    → ((f g : A → Outcome B) → (o >>= f) ≡ (o >>= g)) ⊎ ((a : A) × (o ≡ done a))
Outcome-cases B (done a) = inr (a, refl)
Outcome-cases B spins = inl (λ f g. refl)
Outcome-cases B null_read = inl (λ f g. refl)
Outcome-cases B (plotz e) = inl (λ f g. refl)
