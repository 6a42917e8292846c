-- ===== src/Base/Members.antt =====
-- Membership in a list with the position kept, and what `keep_if` keeps.
use erizo_controller.Base.Tests.{Bool-cases}
use mathlib.Core.Path.{◌≡◌, sym, ap, ◌∙◌}
use mathlib.Core.Logic.{◌⊎◌, inl, inr}
use mathlib.Core.Bool.{Bool, true}
use mathlib.Core.List.{List, [], ◌∷◌}
use erizo_controller.Base.Lists.{keep_if}

pub data Among {ℓ} {A : Type ℓ} (a : A) : List A → Type ℓ where
  among_head : (x : A) (xs : List A) → a ≡ x → Among a (x ∷ xs)
  among_next : (x : A) (xs : List A) → Among a xs → Among a (x ∷ xs)

module _ {ℓ} {A : Type ℓ} where
  pub Among-cons : {a x : A} {xs : List A} → Among a (x ∷ xs) → (a ≡ x) ⊎ Among a xs
  Among-cons (among_head x xs e) = inl e
  Among-cons (among_next x xs m) = inr m

  pub Among-keep_if :
      (p : A → Bool) {a : A} (xs : List A) → Among a (keep_if p xs) → Among a xs × (p a ≡ true)
  unfolding keep_if
  Among-keep_if p [] m = elim m [ ]
  Among-keep_if p (x ∷ xs) m = elim (Bool-cases (p x)) [
    | inl t ↦ elim (Among-cons (rw t at m)) [
      | inl e ↦ (among_head x xs e, ap p e ∙ t)
      | inr m' ↦ let (k, q) = Among-keep_if p xs m' in (among_next x xs k, q)
    ]
    | inr f ↦ let (k, q) = Among-keep_if p xs (rw f at m) in (among_next x xs k, q)
  ]

  pub keep_if-Among :
      (p : A → Bool) {a : A} (xs : List A) → Among a xs → p a ≡ true → Among a (keep_if p xs)
  unfolding keep_if
  keep_if-Among p _ (among_head x xs e) t = rw (sym (ap p e) ∙ t) (among_head x (keep_if p xs) e)
  keep_if-Among p _ (among_next x xs m) t = elim (Bool-cases (p x)) [
    | inl h ↦ rw h (among_next x (keep_if p xs) (keep_if-Among p xs m t))
    | inr h ↦ rw h (keep_if-Among p xs m t)
  ]
