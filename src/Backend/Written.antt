-- ===== src/Backend/Written.antt =====
-- The outcome of a transaction that PostgreSQL may refuse, and chains of statements in it.
use node_conductor.Base.{◌≡◌, refl, ap, ◌⊎◌, inl, inr}

-- What makes a transaction fail, so that nothing of it is kept.
pub data WriteError : Type 0 where
  connection_not_found value_too_long not_null_violation protection_violation : WriteError
  unique_violation foreign_key_violation not_pilotable : WriteError

pub data Written {ℓ} (A : Type ℓ) : Type ℓ where
  wrote : A → Written A
  refused : WriteError → Written A

infixl 5 ◌>>=◌
abbrev pub ◌>>=◌ {ℓ κ} : {A : Type ℓ} {B : Type κ} → Written A → (A → Written B) → Written B
wrote a >>= f = f a
refused e >>= f = refused e

pub Written-cases {ℓ} :
    {A : Type ℓ} (w : Written A) → ((a : A) × (w ≡ wrote a)) ⊎ ((e : WriteError) × (w ≡ refused e))
Written-cases (wrote a) = inl (a, refl)
Written-cases (refused e) = inr (e, refl)

unfoldable written_of {ℓ} : {A : Type ℓ} → A → Written A → A
written_of a (wrote b) = b
written_of a (refused e) = a

pub wrote_injective {ℓ} : {A : Type ℓ} {a b : A} → wrote a ≡ wrote b → a ≡ b
unfolding written_of
wrote_injective {a = a} h = ap (written_of a) h

module _ {ℓ κ} {A : Type ℓ} {B : Type κ} where
  -- A chain that succeeds has succeeded at each link.
  pub bind-wrote :
      (w : Written A) (f : A → Written B) (b : B)
      → (w >>= f) ≡ wrote b
      → (a : A) × (w ≡ wrote a) × (f a ≡ wrote b)
  bind-wrote (wrote a) f b h = (a, refl, h)
  bind-wrote (refused e) f b h = absurd cc
