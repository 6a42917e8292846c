-- ===== src/Process/Ends.antt =====
-- What holds when a call has ended: `Ends` where it returns, whatever it is given, and `Leaves`
-- where it may throw too. One rule for each way to build a call.
use erizo_controller.Base.{Bool, true, false, Option, none, some, ◌≡◌, refl, if◌then◌else◌}
use erizo_controller.External.{Platform}
use erizo_controller.Model.Outcome.{Outcome, done, thrown, or_throw}
use erizo_controller.Process.State.{World, Exec, lift, continue, ◌>>=◌}
use erizo_controller.Process.Frame.{SameQueues, IsQuiet}

module _ {P : Platform} where
  -- The call returned a value, and `Q` holds of it and of the state.
  pub data Ends {A : Type 0} (Q : A → World P → Type 0) : Outcome A × World P → Type 0 where
    ends : (a : A) (w : World P) → Q a w → Ends Q (done a, w)

  -- The call returned a value and `Q` holds, or it threw and `T` holds of the state.
  pub data Leaves {A : Type 0} (Q : A → World P → Type 0) (T : World P → Type 0)
      : Outcome A × World P → Type 0 where
    returned : (a : A) (w : World P) → Q a w → Leaves Q T (done a, w)
    threw : (w : World P) → T w → Leaves Q T (thrown, w)

  continue-Ends :
      {A B : Type 0} {R : A → World P → Type 0} {Q : B → World P → Type 0} (f : A → Exec P B)
      (r : Outcome A × World P)
      → Ends R r
      → ((a : A) (w : World P) → R a w → Ends Q (f a w))
      → Ends Q (continue r.0 f r.1)
  continue-Ends f r (ends a w h) k = k a w h

  pub Ends-bind :
      {A B : Type 0} {R : A → World P → Type 0} {Q : B → World P → Type 0} (m : Exec P A)
      (f : A → Exec P B) (w : World P)
      → Ends R (m w)
      → ((a : A) (w' : World P) → R a w' → Ends Q (f a w'))
      → Ends Q ((m >>= f) w)
  Ends-bind m f w h k = continue-Ends f (m w) h k

  continue-result :
      {A B : Type 0} {R : A → World P → Type 0} (f : A → Exec P B) (o : Outcome B)
      (r : Outcome A × World P)
      → Ends R r
      → ((a : A) (w : World P) → R a w → (f a w).0 ≡ o)
      → (continue r.0 f r.1).0 ≡ o
  continue-result f o r (ends a w h) k = k a w h

  -- What a call comes to, after one that returns.
  pub Ends-result :
      {A B : Type 0} {R : A → World P → Type 0} (m : Exec P A) (f : A → Exec P B) (o : Outcome B)
      (w : World P)
      → Ends R (m w)
      → ((a : A) (w' : World P) → R a w' → (f a w').0 ≡ o)
      → ((m >>= f) w).0 ≡ o
  Ends-result m f o w h k = continue-result f o (m w) h k

  pub Ends-if :
      {A : Type 0} {Q : A → World P → Type 0} (b : Bool) (m n : Exec P A) (w : World P)
      → (b ≡ true → Ends Q (m w))
      → (b ≡ false → Ends Q (n w))
      → Ends Q ((if b then m else n) w)
  Ends-if true m n w h k = h refl
  Ends-if false m n w h k = k refl

  pub Ends-option :
      {A B : Type 0} {Q : B → World P → Type 0} (o : Option A) (m : Exec P B) (f : A → Exec P B)
      (w : World P)
      → (o ≡ none → Ends Q (m w))
      → ((a : A) → o ≡ some a → Ends Q (f a w))
      → Ends Q ((elim o as (λ _. Exec P B) [ none ↦ m | some a ↦ f a ]) w)
  Ends-option none m f w h k = h refl
  Ends-option (some a) m f w h k = k a refl

  pub Ends-mono :
      {A : Type 0} {R Q : A → World P → Type 0} (r : Outcome A × World P)
      → Ends R r
      → ((a : A) (w : World P) → R a w → Q a w)
      → Ends Q r
  Ends-mono r (ends a w h) k = ends a w (k a w h)

  continue-Leaves :
      {A B : Type 0} {R : A → World P → Type 0} {Q : B → World P → Type 0} {T : World P → Type 0}
      (f : A → Exec P B) (r : Outcome A × World P)
      → Leaves R T r
      → ((a : A) (w : World P) → R a w → Leaves Q T (f a w))
      → Leaves Q T (continue r.0 f r.1)
  continue-Leaves f r (returned a w h) k = k a w h
  continue-Leaves f r (threw w h) k = threw w h

  pub Leaves-bind :
      {A B : Type 0} {R : A → World P → Type 0} {Q : B → World P → Type 0} {T : World P → Type 0}
      (m : Exec P A) (f : A → Exec P B) (w : World P)
      → Leaves R T (m w)
      → ((a : A) (w' : World P) → R a w' → Leaves Q T (f a w'))
      → Leaves Q T ((m >>= f) w)
  Leaves-bind m f w h k = continue-Leaves f (m w) h k

  pub Leaves-if :
      {A : Type 0} {Q : A → World P → Type 0} {T : World P → Type 0} (b : Bool) (m n : Exec P A)
      (w : World P)
      → (b ≡ true → Leaves Q T (m w))
      → (b ≡ false → Leaves Q T (n w))
      → Leaves Q T ((if b then m else n) w)
  Leaves-if true m n w h k = h refl
  Leaves-if false m n w h k = k refl

  pub Leaves-option :
      {A B : Type 0} {Q : B → World P → Type 0} {T : World P → Type 0} (o : Option A) (m : Exec P B)
      (f : A → Exec P B) (w : World P)
      → (o ≡ none → Leaves Q T (m w))
      → ((a : A) → o ≡ some a → Leaves Q T (f a w))
      → Leaves Q T ((elim o as (λ _. Exec P B) [ none ↦ m | some a ↦ f a ]) w)
  Leaves-option none m f w h k = h refl
  Leaves-option (some a) m f w h k = k a refl

  -- What holds of every call, read off any outcome.
  pub outcome_cases :
      {A : Type 0} {Q : A → World P → Type 0} {T : World P → Type 0} (o : Outcome A) (w : World P)
      → ((a : A) → Q a w)
      → T w
      → Leaves Q T (o, w)
  outcome_cases (done a) w h t = returned a w (h a)
  outcome_cases thrown w h t = threw w t

module _ {P : Platform} where
  -- A quiet call, whatever its outcome.
  pub quiet-Leaves :
      {A : Type 0} (m : Exec P A)
      → IsQuiet m
      → (w : World P) → Leaves (λ _ w'. SameQueues w w') (λ w'. SameQueues w w') (m w)
  quiet-Leaves m q w = outcome_cases (m w).0 (m w).1 (λ a. q.at w) (q.at w)

  pub Ends-Leaves :
      {A : Type 0} {Q : A → World P → Type 0} {T : World P → Type 0} (r : Outcome A × World P)
      → Ends Q r
      → Leaves Q T r
  Ends-Leaves r (ends a w h) = returned a w h

  pub Leaves-mono :
      {A : Type 0} {R Q : A → World P → Type 0} {S T : World P → Type 0} (r : Outcome A × World P)
      → Leaves R S r
      → ((a : A) (w : World P) → R a w → Q a w)
      → ((w : World P) → S w → T w)
      → Leaves Q T r
  Leaves-mono r (returned a w h) k l = returned a w (k a w h)
  Leaves-mono r (threw w h) k l = threw w (l w h)

  -- A quiet call first: the rest starts from a state with the same queues.
  pub quiet_first :
      {A B : Type 0} {Q : B → World P → Type 0} {T : World P → Type 0} (m : Exec P A)
      (f : A → Exec P B) (w : World P)
      → IsQuiet m
      → ((w' : World P) → SameQueues w w' → T w')
      → ((a : A) (w' : World P) → SameQueues w w' → Leaves Q T (f a w'))
      → Leaves Q T ((m >>= f) w)
  quiet_first m f w q t k = Leaves-bind m f w (Leaves-mono _ (quiet-Leaves m q w) (λ _ _ h. h) t) k

  -- The rest of a block, after a call that is known.
  pub quiet_continue :
      {A B : Type 0} {Q : B → World P → Type 0} {T : World P → Type 0} (f : A → Exec P B)
      (o : Outcome A) (v : World P)
      → T v
      → ((a : A) → o ≡ done a → Leaves Q T (f a v))
      → Leaves Q T (continue o f v)
  quiet_continue f (done a) v t k = k a refl
  quiet_continue f thrown v t k = threw v t

  -- The same, with what the call gave.
  pub quiet_read :
      {A B : Type 0} {Q : B → World P → Type 0} {T : World P → Type 0} (m : Exec P A)
      (f : A → Exec P B) (w : World P)
      → IsQuiet m
      → ((w' : World P) → SameQueues w w' → T w')
      → ((a : A) (w' : World P) → SameQueues w w' → (m w).0 ≡ done a → Leaves Q T (f a w'))
      → Leaves Q T ((m >>= f) w)
  quiet_read m f w q t k =
      quiet_continue f (m w).0 (m w).1 (t (m w).1 (q.at w)) λ a e. k a (m w).1 (q.at w) e

  -- A conversion that may throw first.
  pub Leaves-or_throw :
      {A B : Type 0} {Q : B → World P → Type 0} {T : World P → Type 0} (o : Option A)
      (f : A → Exec P B) (w : World P)
      → T w
      → ((a : A) → o ≡ some a → Leaves Q T (f a w))
      → Leaves Q T ((lift (or_throw o) >>= f) w)
  Leaves-or_throw none f w t k = threw w t
  Leaves-or_throw (some a) f w t k = k a refl

  -- The same, where what a throw leaves depends on the conversion.
  pub Leaves-converted :
      {A B : Type 0} {Q : B → World P → Type 0} {T : World P → Type 0} (o : Option A)
      (f : A → Exec P B) (w : World P)
      → (o ≡ none → T w)
      → ((a : A) → o ≡ some a → Leaves Q T (f a w))
      → Leaves Q T ((lift (or_throw o) >>= f) w)
  Leaves-converted none f w t k = threw w (t refl)
  Leaves-converted (some a) f w t k = k a refl
