-- ===== src/Controller/Signaling/OnlyTo.antt =====
-- Calls that queue events for one client alone, and no message to agents; one rule for each way to build
-- a call.
use mathlib.Core.List.{append_assoc, append-nil}
use erizo_controller.Base.{
  Bool, true, false, String, Option, none, some, List, [], ◌∷◌, ◌++◌, All, ◌≡◌, refl, sym, ap, ◌∙◌,
  if◌then◌else◌,
}
use erizo_controller.External.{Platform}
use erizo_controller.Model.Outcome.{Outcome, done, thrown}
use erizo_controller.Process.State.{World, SioData, Task, Exec, pure, lift, continue, ◌>>=◌}
use erizo_controller.Process.Frame.{IsQuiet}
use erizo_controller.Controller.Event.{send_event, close_connection, send_events}
use erizo_controller.Controller.Signaling.{async_task}

All-append :
    (to : String) (xs ys : List SioData)
    → All (λ d. d.client_id ≡ to) xs
    → All (λ d. d.client_id ≡ to) ys
    → All (λ d. d.client_id ≡ to) (xs ++ ys)
All-append to [] ys h k = k
All-append to (x ∷ xs) ys (e, h) k = (e, All-append to xs ys h k)

module _ {P : Platform} (to : String) where
  -- The events that stand in the queue of `w` beside those of `v` are for this client.
  pub record Adds (v w : World P) : Type 0 where
    pub added : List SioData
    pub events : w.events ≡ v.events ++ added
    pub for_client : All (λ d. d.client_id ≡ to) added
    pub sent : w.sent ≡ v.sent

  -- `m` adds such events, whether it returns or throws.
  pub record OnlyTo {A : Type 0} (m : Exec P A) : Type 0 where
    pub at : (w : World P) → Adds w (m w).1

  pub Adds-trans : {u v w : World P} → Adds u v → Adds v w → Adds u w
  Adds-trans {u} p q = record {
    added = p.added ++ q.added;
    events =
        q.events
        ∙ ap (λ (l : List SioData). l ++ q.added) p.events
        ∙ append_assoc u.events p.added q.added;
    for_client = All-append to p.added q.added p.for_client q.for_client;
    sent = q.sent ∙ p.sent;
  }

  pub same-Adds : {v w : World P} → w.events ≡ v.events → w.sent ≡ v.sent → Adds v w
  same-Adds {v} e s = record {
    added = [];
    events = e ∙ sym (append-nil v.events);
    for_client = tt;
    sent = s;
  }

  pub quiet-OnlyTo : {A : Type 0} (m : Exec P A) → IsQuiet m → OnlyTo m
  quiet-OnlyTo m q = record { at = λ w. same-Adds (q.at w).events (q.at w).sent }

  pub OnlyTo-pure : {A : Type 0} (a : A) → OnlyTo (pure a)
  OnlyTo-pure a = record { at = λ w. same-Adds refl refl }

  pub OnlyTo-lift : {A : Type 0} (o : Outcome A) → OnlyTo (lift o)
  OnlyTo-lift o = record { at = λ w. same-Adds refl refl }

  pub OnlyTo-if :
      {A : Type 0} (b : Bool) (m n : Exec P A) → OnlyTo m → OnlyTo n → OnlyTo (if b then m else n)
  OnlyTo-if true m n h k = h
  OnlyTo-if false m n h k = k

  pub OnlyTo-option :
      {A B : Type 0} (o : Option A) (m : Exec P B) (f : A → Exec P B)
      → OnlyTo m
      → ((a : A) → OnlyTo (f a))
      → OnlyTo (elim o as (λ _. Exec P B) [ none ↦ m | some a ↦ f a ])
  OnlyTo-option none m f h k = h
  OnlyTo-option (some a) m f h k = k a

  continue-Adds :
      {A B : Type 0} (f : A → Exec P B) (o : Outcome A) (w : World P)
      → ((a : A) → OnlyTo (f a))
      → Adds w (continue o f w).1
  continue-Adds f (done a) w h = (h a).at w
  continue-Adds f thrown w h = same-Adds refl refl

  pub OnlyTo-bind :
      {A B : Type 0} (m : Exec P A) (f : A → Exec P B)
      → OnlyTo m
      → ((a : A) → OnlyTo (f a))
      → OnlyTo (m >>= f)
  OnlyTo-bind m f h k = record { at = λ w. Adds-trans (h.at w) (continue-Adds f (m w).0 (m w).1 k) }

  pub task-OnlyTo : (t : Task) → OnlyTo (async_task P t)
  unfolding async_task
  task-OnlyTo t = record { at = λ w. same-Adds refl refl }

  pub close-OnlyTo : OnlyTo (close_connection P to)
  unfolding close_connection
  close-OnlyTo = record {
    at = λ w. record { added = _; events = refl; for_client = (refl, tt); sent = refl };
  }

  send-OnlyTo : (msg : String) → OnlyTo (send_event P to msg)
  unfolding send_event
  send-OnlyTo msg = record {
    at = λ w. record { added = _; events = refl; for_client = (refl, tt); sent = refl };
  }

  pub send_events-OnlyTo : (events : List P.json.Value) → OnlyTo (send_events P to events)
  unfolding send_events
  send_events-OnlyTo [] = record { at = λ w. same-Adds refl refl }
  send_events-OnlyTo (e ∷ events) =
      OnlyTo-bind (send_event P to (P.json.write e)) _ (send-OnlyTo (P.json.write e))
        λ _. send_events-OnlyTo events

pub ruleset only_to_rules = (OnlyTo-pure, OnlyTo-lift, OnlyTo-if, OnlyTo-option, OnlyTo-bind)
