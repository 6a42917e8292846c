-- ===== src/Model/Outcome.antt =====
-- C++ calls that may throw: `thrown` is an exception, which nothing in the program catches.
use erizo_controller.Base.{Option, none, some, ◌≡◌, refl, subst}

pub data Outcome {ℓ} (A : Type ℓ) : Type ℓ where
  done : A → Outcome A
  thrown : Outcome A

infixl 5 ◌>>=◌
abbrev pub ◌>>=◌ {ℓ κ} : {A : Type ℓ} {B : Type κ} → Outcome A → (A → Outcome B) → Outcome B
done a >>= f = f a
thrown >>= f = thrown

-- A conversion of jsoncpp throws where it has no value.
abbrev pub or_throw {ℓ} : {A : Type ℓ} → Option A → Outcome A
or_throw none = thrown
or_throw (some a) = done a

-- `P` holds of what is returned.
pub data Always {ℓ κ} {A : Type ℓ} (P : A → Type κ) : Outcome A → Type (ℓ ⊔ κ) where
  always_done : (a : A) → P a → Always P (done a)
  always_thrown : Always P thrown

pub Always-bind {ℓ κ ι} :
    {A : Type ℓ} {B : Type κ} {P : B → Type ι} (o : Outcome A) (f : A → Outcome B)
    → ((a : A) → Always P (f a))
    → Always P (o >>= f)
Always-bind (done a) f h = h a
Always-bind thrown f h = always_thrown

pub done_back {ℓ} : {A : Type ℓ} {a b : A} → done a ≡ done b → a ≡ b
done_back e = cc

pub not_thrown {ℓ} : {A : Type ℓ} {a : A} → thrown ≡ done a → ⊥
not_thrown e = cc

pub Always-at {ℓ κ} :
    {A : Type ℓ} (P : A → Type κ) {o : Outcome A} (a : A) → Always P o → o ≡ done a → P a
Always-at P a (always_done b h) e = subst P (done_back e) h
Always-at P a always_thrown e = absurd (not_thrown e)

-- A block that returned returned from its first call.
pub bind_done {ℓ κ} :
    {A : Type ℓ} {B : Type κ} {b : B} (o : Outcome A) (f : A → Outcome B)
    → (o >>= f) ≡ done b
    → (a : A) × (o ≡ done a) × (f a ≡ done b)
bind_done (done a) f h = (a, refl, h)
bind_done thrown f h = absurd (not_thrown h)
