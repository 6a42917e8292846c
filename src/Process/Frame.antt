-- ===== src/Process/Frame.antt =====
-- Calls that leave the queues of the process alone, one rule for each way to build a call.
use erizo_controller.Base.{Bool, true, false, ◌≡◌, refl, ◌∙◌, if◌then◌else◌}
use erizo_controller.External.{Platform}
use erizo_controller.Model.Outcome.{Outcome, done, thrown}
use erizo_controller.Process.State.{World, Exec, pure, lift, gets, continue, ◌>>=◌}

module _ {P : Platform} where
  -- Two states that differ at most in the server and the counters.
  pub record SameQueues (v w : World P) : Type 0 where
    pub config : w.config ≡ v.config
    pub id : w.id ≡ v.id
    pub reply_to : w.reply_to ≡ v.reply_to
    pub redis_ready : w.redis_ready ≡ v.redis_ready
    pub sent : w.sent ≡ v.sent
    pub events : w.events ≡ v.events
    pub tasks : w.tasks ≡ v.tasks

  pub SameQueues-refl : (w : World P) → SameQueues w w
  SameQueues-refl w = record {
    config = refl;
    id = refl;
    reply_to = refl;
    redis_ready = refl;
    sent = refl;
    events = refl;
    tasks = refl;
  }

  pub SameQueues-trans : {u v w : World P} → SameQueues u v → SameQueues v w → SameQueues u w
  SameQueues-trans p q = record {
    config = q.config ∙ p.config;
    id = q.id ∙ p.id;
    reply_to = q.reply_to ∙ p.reply_to;
    redis_ready = q.redis_ready ∙ p.redis_ready;
    sent = q.sent ∙ p.sent;
    events = q.events ∙ p.events;
    tasks = q.tasks ∙ p.tasks;
  }

  -- `m` leaves the queues alone, whether it returns or throws.
  pub record IsQuiet {A : Type 0} (m : Exec P A) : Type 0 where
    pub at : (w : World P) → SameQueues w (m w).1

  pub IsQuiet-pure : {A : Type 0} (a : A) → IsQuiet (pure a)
  IsQuiet-pure a = record { at = SameQueues-refl }

  pub IsQuiet-lift : {A : Type 0} (o : Outcome A) → IsQuiet (lift o)
  IsQuiet-lift o = record { at = SameQueues-refl }

  pub IsQuiet-gets : {A : Type 0} (f : World P → A) → IsQuiet (gets f)
  IsQuiet-gets f = record { at = SameQueues-refl }

  pub IsQuiet-if :
      {A : Type 0} (b : Bool) (m n : Exec P A)
      → IsQuiet m
      → IsQuiet n
      → IsQuiet (if b then m else n)
  IsQuiet-if true m n h k = h
  IsQuiet-if false m n h k = k

  continue-quiet :
      {A B : Type 0} (f : A → Exec P B) (o : Outcome A) (w : World P)
      → ((a : A) → IsQuiet (f a))
      → SameQueues w (continue o f w).1
  continue-quiet f (done a) w h = (h a).at w
  continue-quiet f thrown w h = SameQueues-refl w

  pub IsQuiet-bind :
      {A B : Type 0} (m : Exec P A) (f : A → Exec P B)
      → IsQuiet m
      → ((a : A) → IsQuiet (f a))
      → IsQuiet (m >>= f)
  IsQuiet-bind m f h k = record {
    at = λ w. SameQueues-trans (h.at w) (continue-quiet f (m w).0 (m w).1 k);
  }

pub ruleset quiet_rules = (IsQuiet-pure, IsQuiet-lift, IsQuiet-gets, IsQuiet-if, IsQuiet-bind)
