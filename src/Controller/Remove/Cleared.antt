-- ===== src/Controller/Remove/Cleared.antt =====
-- `removeClient` of core/erizo_controller.cpp: which rows the two loops collect.
use mathlib.Core.List.{append_assoc}
use erizo_controller.Base.{
  Bool, String, ◌==◌, some, List, [], ◌∷◌, ◌++◌, ◌++ₛ◌, map, keep_if, ◌≡◌, refl, sym, ap,
  if◌then◌else◌,
}
use erizo_controller.External.{Platform}
use erizo_controller.Model.Client.{Client}
use erizo_controller.Model.Publisher.{Publisher}
use erizo_controller.Model.Subscriber.{Subscriber}
use erizo_controller.External.Redis.{HashAnswers}
use erizo_controller.Process.State.{World}
use erizo_controller.Process.Ends.{Leaves, returned, Leaves-bind, Leaves-if, Leaves-option}
use erizo_controller.Controller.Message.{remove_publisher, rpc_not_reply}
use erizo_controller.Controller.Bridge.{remove_bridge_stream_pub}
use erizo_controller.Controller.Remove.Released.{
  Unreadable, pub_row-Leaves, end_subscription-Leaves,
}
use erizo_controller.Controller.Remove.{
  follows, end_subscription, end_followed, end_own, end_subscriptions, end_publications,
}

-- The publishers of a client.
abbrev pub owned : Client → Publisher → Bool
owned c p = p.client_id == c.id

-- The ids of one subscription in the order in which the loops add them: once for each stream of the
-- client that it follows, and once more if it is the client's own.
abbrev pub ended_ids : Client → List Publisher → Subscriber → List String
ended_ids c publishers s =
    map (λ _. s.id) (keep_if (follows c.id s) publishers)
    ++ (if s.client_id == c.id then s.id ∷ [] else [])

abbrev pub all_ended_ids : Client → List Publisher → List Subscriber → List String
all_ended_ids c publishers [] = []
all_ended_ids c publishers (s ∷ subscribers) =
    ended_ids c publishers s ++ all_ended_ids c publishers subscribers

joined :
    (is js xs ys zs : List String)
    → is ≡ xs
    → js ≡ ys
    → some (is ++ (js ++ zs)) ≡ some ((xs ++ ys) ++ zs)
joined is js xs ys zs e f = rw (e, f) (ap some (sym (append_assoc xs ys zs)))

module _ (P : Platform) (c : Client)
    (H : HashAnswers P.redis ("bridge_stream_" ++ₛ c.room_id)) where
  -- Where the server answers, the second loop of `removeClient` ends, unless the row of a bridge makes
  -- `fromJSON` throw, and collects the ids of the publishers of the client and no others, in the order
  -- in which they were read.
  pub end_publications_lem :
      (publishers : List Publisher) (w : World P)
      → Leaves
          (λ ids _. ids ≡ some (map (λ p. p.id) (keep_if (owned c) publishers)))
          (Unreadable P c.room_id H)
          (end_publications P c publishers w)
  unfolding end_publications keep_if remove_publisher rpc_not_reply
  end_publications_lem [] w = returned _ _ refl
  end_publications_lem (p ∷ publishers) w =
      Leaves-if (p.client_id == c.id) _ _ w
        (λ e.
          Leaves-bind (remove_bridge_stream_pub P c.room_id p.id p.erizo_id) _ w
            (pub_row-Leaves P c.room_id H p.id p.erizo_id w)
            λ failed w1 n.
              Leaves-if failed _ _ w1 (λ f. absurd (cc (f, n)))
                λ _.
                  Leaves-bind (end_publications P c publishers) _ _
                    (end_publications_lem publishers _) λ ids w3 h. returned _ _ (rw (e, h) refl))
        λ e. rw e (end_publications_lem publishers w)

  -- One round of the inner loop collects the subscription once for each stream that it follows.
  end_followed_lem :
      (s : Subscriber) (publishers : List Publisher) (w : World P)
      → Leaves
          (λ ids _. ids ≡ some (map (λ _. s.id) (keep_if (follows c.id s) publishers)))
          (Unreadable P c.room_id H)
          (end_followed P c s publishers w)
  unfolding end_followed keep_if
  end_followed_lem s [] w = returned _ _ refl
  end_followed_lem s (p ∷ publishers) w =
      Leaves-if (follows c.id s p) _ _ w
        (λ e.
          Leaves-bind (end_subscription P c.room_id s) _ w
            (end_subscription-Leaves P c.room_id H s w)
            λ failed w1 n.
              Leaves-if failed _ _ w1 (λ f. absurd (cc (f, n)))
                λ _.
                  Leaves-bind (end_followed P c s publishers) _ w1
                    (end_followed_lem s publishers w1) λ ids w2 h. returned _ _ (rw (e, h) refl))
        λ e. rw e (end_followed_lem s publishers w)

  end_own_lem :
      (s : Subscriber) (w : World P)
      → Leaves
          (λ ids _. ids ≡ some (if s.client_id == c.id then s.id ∷ [] else []))
          (Unreadable P c.room_id H)
          (end_own P c s w)
  unfolding end_own
  end_own_lem s w =
      Leaves-if (s.client_id == c.id) _ _ w
        (λ e.
          Leaves-bind (end_subscription P c.room_id s) _ w
            (end_subscription-Leaves P c.room_id H s w)
            λ failed w1 n. returned _ _ (rw (e, n) refl))
        λ e. returned _ _ (rw e refl)

  -- Where the server answers, the first loop of `removeClient` ends, unless the row of a bridge makes
  -- `fromJSON` throw, and collects the ids of the subscriptions that follow a stream of the client,
  -- once for each, and of the client's own, and no others, in the order in which they were read.
  pub end_subscriptions_lem :
      (publishers : List Publisher) (subscribers : List Subscriber) (w : World P)
      → Leaves
          (λ ids _. ids ≡ some (all_ended_ids c publishers subscribers))
          (Unreadable P c.room_id H)
          (end_subscriptions P c publishers subscribers w)
  unfolding end_subscriptions
  end_subscriptions_lem publishers [] w = returned _ _ refl
  end_subscriptions_lem publishers (s ∷ subscribers) w =
      Leaves-bind (end_followed P c s publishers) _ w (end_followed_lem s publishers w)
        λ followed w1 f.
          Leaves-option followed _ _ w1 (λ e. absurd (cc (e, f)))
            λ is i. Leaves-bind (end_own P c s) _ w1 (end_own_lem s w1) λ own w2 g.
              Leaves-option own _ _ w2 (λ e. absurd (cc (e, g)))
                λ js j.
                  Leaves-bind (end_subscriptions P c publishers subscribers) _ w2
                    (end_subscriptions_lem publishers subscribers w2)
                    λ ids w3 h. returned _ _ (
                      rw h (
                        joined is js (map (λ _. s.id) (keep_if (follows c.id s) publishers))
                          (if s.client_id == c.id then s.id ∷ [] else [])
                          (all_ended_ids c publishers subscribers) (cc (i, f)) (cc (j, g))))
