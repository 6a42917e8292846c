-- ===== src/Controller/Subscribe/Atomic.antt =====
-- `handleSubscribe` tells the agents exactly if it replies.
use erizo_controller.Base.{
  ℕ, zero, suc, pos, ◌||◌, Bool, true, false, String, ◌==◌, Option, none, some, ◌≢◌, eq_iff,
  Bool-cases, inl, inr, List, [], ◌∷◌, ◌++◌, not, ◌≡◌, refl, sym, ap, ◌∙◌, eqb, find_if,
  if◌then◌else◌,
}
use mathlib.Core.List.{append_assoc, append-nil}
use erizo_controller.Base.Int.{succ}
use erizo_controller.External.{Platform}
use erizo_controller.External.Json.{string_value}
use erizo_controller.Route.Enums.{isp_to_string}
use erizo_controller.Model.Fields.{has, array}
use erizo_controller.Model.Client.{Client}
use erizo_controller.Model.Publisher.{Publisher}
use erizo_controller.Model.Subscriber.{Subscriber}
use erizo_controller.Model.BridgeStream.{BridgeStream}
use erizo_controller.Model.Outcome.{done}
use erizo_controller.Process.State.{AmqpData, World, Exec, pure}
use erizo_controller.Process.Frame.{SameQueues, SameQueues-refl, SameQueues-trans}
use erizo_controller.Process.Ends.{
  Leaves, returned, Leaves-bind, Leaves-if, Leaves-option, Leaves-or_throw, Leaves-mono,
  quiet-Leaves, quiet_first, quiet_read,
}
use erizo_controller.Process.Clock.{get_stream_id}
use erizo_controller.Redis.Quiet.{
  get_stream_id-IsQuiet, get_publisher-IsQuiet, get_all_bridge_stream-IsQuiet,
  add_bridge_stream-IsQuiet, add_subscriber_row-IsQuiet,
}
use erizo_controller.Redis.Scope.{with_lock-Leaves}
use erizo_controller.Redis.Helper.{
  get_publisher, add_subscriber_row, get_all_bridge_stream, add_bridge_stream,
}
use erizo_controller.Redis.Locker.{with_lock}
use erizo_controller.Controller.Message.{
  one_way, rpc_not_reply, add_subscriber, add_virtual_publisher, add_virtual_subscriber, call,
}
use erizo_controller.Controller.Bridge.{brings}
use erizo_controller.Controller.Subscribe.{
  Round, again, leave, needs_bridge, subscriber_of, bridge_of, open_bridge, join_bridge,
  subscribe_to, subscribe_round, subscribe_loop, handle_subscribe,
}

differ : (c : Client) (p : Publisher) → needs_bridge c p ≡ true → c.agent_id ≢ p.agent_id
differ c p e same = cc (e, (eq_iff c.agent_id p.agent_id).1 same)

agree : (c : Client) (p : Publisher) → needs_bridge c p ≡ false → c.agent_id ≡ p.agent_id
agree c p e = elim (Bool-cases (c.agent_id == p.agent_id)) [
  | inl t ↦ (eq_iff c.agent_id p.agent_id).0 t
  | inr f ↦ absurd (cc (rw f at e))
]

module _ (P : Platform) (w : World P) (c : Client) where
  open P.json use {Value, null, of_string, of_int, of_uint, of_bool, member, as_string}

  abbrev order : String → String → List Value → AmqpData
  order queue method args = one_way P w.config.uniquecast_exchange queue (call P method args)

  -- What the subscriber's agent is sent.
  abbrev pub subscribe_order : Publisher → String → AmqpData
  subscribe_order p stream_id = order c.erizo_id "addSubscriber" (
      of_string c.id
      ∷ of_string stream_id
      ∷ of_string p.label
      ∷ of_string w.reply_to
      ∷ of_string (isp_to_string c.ip_info.isp)
      ∷ [])

  -- What the two agents of a new bridge are sent; `p'` is the publisher as it was read again.
  abbrev pub bridge_orders : Publisher → Publisher → String → String → List AmqpData
  bridge_orders p p' id stream_id =
      order c.erizo_id "addVirtualPublisher" (
        of_string id
        ∷ of_string stream_id
        ∷ of_string p.bridge_ip
        ∷ of_int (pos p.bridge_port)
        ∷ of_uint p'.video_ssrc
        ∷ of_uint p'.audio_ssrc
        ∷ [])
      ∷ order p.erizo_id "addVirtualSubscriber" (
          of_string id
          ∷ of_string stream_id
          ∷ of_string c.bridge_ip
          ∷ of_int (pos c.bridge_port)
          ∷ [])
      ∷ []

  -- What `getPublisher` and `getAllBridgeStream` gave in some state on the way.
  abbrev pub PublisherRead : String → Publisher → Type 0
  PublisherRead stream_id p =
      (u : World P) × SameQueues w u × ((get_publisher P c.room_id stream_id u).0 ≡ done (some p))

  abbrev pub BridgeRead : String → Option BridgeStream → Type 0
  BridgeRead stream_id found =
      (u : World P) × (bridges : List BridgeStream) × SameQueues w u
      × ((get_all_bridge_stream P c.room_id u).0 ≡ done (some bridges))
      × (find_if (brings stream_id c.erizo_id) bridges ≡ found)

  -- The messages before the one to the subscriber's agent: none where the publisher has the same agent
  -- or where a bridge that brings the stream to this agent was found, and those of a new bridge where
  -- the agents differ and none was found.
  pub data BridgeOrders (p : Publisher) (stream_id : String) : List AmqpData → Type 0 where
    same_agent : c.agent_id ≡ p.agent_id → BridgeOrders p stream_id []
    joined_bridge :
        (b : BridgeStream)
        → c.agent_id ≢ p.agent_id
        → BridgeRead stream_id (some b)
        → BridgeOrders p stream_id []
    new_bridge :
        (p' : Publisher) (id : String)
        → c.agent_id ≢ p.agent_id
        → BridgeRead stream_id none
        → PublisherRead stream_id p'
        → BridgeOrders p stream_id (bridge_orders p p' id stream_id)

  -- What a subscription may come to: a null reply and the queue as before, or the reply `[true,
  -- agent]` and the order to the agent behind the queue, after those of a new bridge.
  pub data Subscribed (root : Value) : Value → World P → Type 0 where
    refused : (r : Value) (w' : World P) → r ≡ null → w'.sent ≡ w.sent → Subscribed root r w'
    accepted :
        (r : Value) (w' : World P) (p : Publisher) (stream_id : String) (first : List AmqpData)
        → as_string (member root "streamId") ≡ some stream_id
        → PublisherRead stream_id p
        → (eqb p.video_ssrc 0 || eqb p.audio_ssrc 0) ≡ false
        → r ≡ array P.json (of_bool true ∷ of_string c.erizo_id ∷ [])
        → BridgeOrders p stream_id first
        → w'.sent ≡ w.sent ++ (first ++ (subscribe_order p stream_id ∷ []))
        → Subscribed root r w'

  Subscribed-stable :
      (root r : Value) (u v : World P) → Subscribed root r u → SameQueues u v → Subscribed root r v
  Subscribed-stable root r u v (refused _ _ e s) q = refused r v e (q.sent ∙ s)
  Subscribed-stable root r u v (accepted _ _ p i first l g z e b s) q =
      accepted r v p i first l g z e b (q.sent ∙ s)

  abbrev Unsent : World P → Type 0
  Unsent v = v.sent ≡ w.sent

  -- After the bridge is opened or joined; `true` is the early return.
  record Bridged (p : Publisher) (stream_id : String) (failed : Bool) (v : World P) : Type 0 where
    config : v.config ≡ w.config
    reply_to : v.reply_to ≡ w.reply_to
    unsent : failed ≡ true → v.sent ≡ w.sent
    first : List AmqpData
    orders : failed ≡ false → BridgeOrders p stream_id first
    sent : v.sent ≡ w.sent ++ first

  still :
      (p : Publisher) (i : String) (failed : Bool) (v : World P)
      → SameQueues w v
      → (failed ≡ false → BridgeOrders p i [])
      → Bridged p i failed v
  still p i failed v q o = record {
    config = q.config;
    reply_to = q.reply_to;
    unsent = λ _. q.sent;
    first = [];
    orders = o;
    sent = q.sent ∙ sym (append-nil w.sent);
  }

  open_bridge_lem :
      (p : Publisher) (i : String) (u : World P)
      → c.agent_id ≢ p.agent_id
      → BridgeRead i none
      → SameQueues w u
      → Leaves (Bridged p i) Unsent (open_bridge P c p i u)
  unfolding open_bridge add_virtual_publisher add_virtual_subscriber rpc_not_reply
  open_bridge_lem p i u needed none_found q =
      quiet_first (get_stream_id P) _ u (get_stream_id-IsQuiet P) (λ v s. s.sent ∙ q.sent)
        λ id v s.
          quiet_read (get_publisher P c.room_id i) _ v (get_publisher-IsQuiet P c.room_id i)
            (λ x t. t.sent ∙ s.sent ∙ q.sent)
            λ row x t got.
              let before : SameQueues w x = SameQueues-trans q (SameQueues-trans s t) in
              Leaves-option row _ _ x
                (λ _. returned _ _ (still p i true x before (λ e. absurd (cc e))))
                λ p' e.
                  quiet_first (add_bridge_stream P c.room_id (bridge_of c p id i)) _ x
                    (add_bridge_stream-IsQuiet P c.room_id _) (λ y f. f.sent ∙ before.sent)
                    λ failed y f.
                      let now : SameQueues w y = SameQueues-trans before f in
                      Leaves-if failed _ _ y
                        (λ _. returned _ _ (still p i true y now (λ e. absurd (cc e))))
                        λ _. returned _ _ (record {
                          config = now.config;
                          reply_to = now.reply_to;
                          unsent = λ e. cc;
                          first = bridge_orders p p' id i;
                          orders = λ _.
                              new_bridge p' id needed none_found
                                (v, SameQueues-trans q s, got ∙ ap done e);
                          sent =
                              rw (now.sent, ap (λ k. k.uniquecast_exchange) now.config)
                                (append_assoc w.sent _ _);
                        })

  join_bridge_lem :
      (p : Publisher) (id i reply_to : String) (u : World P)
      → c.agent_id ≢ p.agent_id
      → SameQueues w u
      → Leaves (Bridged p i) Unsent (join_bridge P c p (subscriber_of c p id i reply_to) i u)
  unfolding join_bridge
  join_bridge_lem p id i reply_to u needed q =
      quiet_read (get_all_bridge_stream P c.room_id) _ u (get_all_bridge_stream-IsQuiet P c.room_id)
        (λ v t. t.sent ∙ q.sent)
        λ rows v t got.
          Leaves-option rows _ _ v
            (λ _. returned _ _ (still p i true v (SameQueues-trans q t) (λ e. absurd (cc e))))
            λ bridges e.
              Leaves-option (find_if (brings i c.erizo_id) bridges) _ _ v
                (λ n.
                  open_bridge_lem p i v needed (u, bridges, q, got ∙ ap done e, n)
                    (SameQueues-trans q t))
                λ b n.
                  joined b v (joined_bridge b needed (u, bridges, q, got ∙ ap done e, n))
                    (SameQueues-trans q t)
    where
      joined :
          (b : BridgeStream) (v : World P)
          → BridgeOrders p i []
          → SameQueues w v
          → Leaves (Bridged p i) Unsent (
              add_bridge_stream P c.room_id
                (record b { subscribe_count = succ b.subscribe_count })
                v)
      joined b v o q' =
          Leaves-mono _ (quiet-Leaves _ (add_bridge_stream-IsQuiet P c.room_id _) v)
            (λ failed x f. still p i failed x (SameQueues-trans q' f) (λ _. o))
            (λ x f. f.sent ∙ q'.sent)

  subscribe_to_lem :
      (root : Value) (p : Publisher) (i : String) (u : World P)
      → as_string (member root "streamId") ≡ some i
      → PublisherRead i p
      → (eqb p.video_ssrc 0 || eqb p.audio_ssrc 0) ≡ false
      → SameQueues w u
      → Leaves (Subscribed root) Unsent (subscribe_to P c p i u)
  unfolding subscribe_to add_subscriber rpc_not_reply
  subscribe_to_lem root p i u l g z q =
      quiet_first (get_stream_id P) _ u (get_stream_id-IsQuiet P) (λ v t. t.sent ∙ q.sent)
        λ id v t.
          quiet_first (add_subscriber_row P c.room_id (subscriber_of c p id i v.reply_to)) _ v
            (add_subscriber_row-IsQuiet P c.room_id _) (λ x f. f.sent ∙ t.sent ∙ q.sent)
            λ failed x f.
              let now : SameQueues w x = SameQueues-trans q (SameQueues-trans t f) in
              Leaves-if failed _ _ x (λ _. returned _ _ (refused _ _ refl now.sent))
                λ _.
                  Leaves-bind (bridging (subscriber_of c p id i v.reply_to)) _ x
                    (bridge id v.reply_to x now)
                    λ unbridged y b.
                      Leaves-if unbridged _ _ y (λ e. returned _ _ (refused _ _ refl (b.unsent e)))
                        λ e. returned _ _ (
                          accepted _ _ p i b.first l g z refl (b.orders e) (
                            rw (b.sent, b.reply_to, ap (λ k. k.uniquecast_exchange) b.config)
                              (append_assoc w.sent b.first _)))
    where
      bridging : Subscriber → Exec P Bool
      bridging s = if needs_bridge c p then join_bridge P c p s i else pure false

      bridge :
          (id reply_to : String) (x : World P)
          → SameQueues w x
          → Leaves (Bridged p i) Unsent (bridging (subscriber_of c p id i reply_to) x)
      bridge id reply_to x now =
          Leaves-if (needs_bridge c p) _ _ x
            (λ e. join_bridge_lem p id i reply_to x (differ c p e) now)
            λ e. returned _ _ (still p i false x now (λ _. same_agent (agree c p e)))

  -- One round under the lock: it leaves the queue alone if it is to be repeated.
  RoundDone : Value → Round Value → World P → Type 0
  RoundDone root again v = SameQueues w v
  RoundDone root (leave r) v = Subscribed root r v

  RoundDone-stable :
      (root : Value) (r : Round Value) (u v : World P)
      → RoundDone root r u
      → SameQueues u v
      → RoundDone root r v
  unfolding RoundDone
  RoundDone-stable root again u v d q = SameQueues-trans d q
  RoundDone-stable root (leave r) u v d q = Subscribed-stable root r u v d q

  subscribe_round_lem :
      (root : Value) (u : World P)
      → SameQueues w u
      → Leaves (RoundDone root) Unsent (subscribe_round P c root u)
  unfolding subscribe_round RoundDone
  subscribe_round_lem root u q =
      Leaves-or_throw (as_string (member root "streamId")) _ u q.sent λ i l.
        quiet_read (get_publisher P c.room_id i) _ u (get_publisher-IsQuiet P c.room_id i)
          (λ v t. t.sent ∙ q.sent)
          λ row v t got.
            let now : SameQueues w v = SameQueues-trans q t in
            Leaves-option row _ _ v (λ _. returned _ _ (refused _ _ refl now.sent))
              λ p e.
                Leaves-if (eqb p.video_ssrc 0 || eqb p.audio_ssrc 0) _ _ v (λ _. returned _ _ now)
                  λ z.
                    Leaves-bind (subscribe_to P c p i) _ v
                      (subscribe_to_lem root p i v l (u, q, got ∙ ap done e) z now)
                      λ r x d. returned _ _ d

  locked_round :
      (root : Value) (u : World P)
      → SameQueues w u
      → Leaves
          (RoundDone root)
          Unsent
          (with_lock P c.room_id (leave null) (subscribe_round P c root) u)
  unfolding RoundDone
  locked_round root u q =
      with_lock-Leaves P c.room_id (leave null) (subscribe_round P c root) u
        (λ v t. subscribe_round_lem root v (SameQueues-trans q t))
        (λ v t. refused _ _ refl (t.sent ∙ q.sent)) (λ v t. t.sent ∙ q.sent) (RoundDone-stable root)

  subscribe_loop_lem :
      (n : ℕ) (root : Value) (u : World P)
      → SameQueues w u
      → Leaves (Subscribed root) Unsent (subscribe_loop P n c root u)
  unfolding subscribe_loop RoundDone
  subscribe_loop_lem zero root u q =
      Leaves-bind (with_lock P c.room_id (leave null) (subscribe_round P c root)) _ u
        (locked_round root u q)
        (elim [
          | again ↦ λ v d. returned _ _ (refused _ _ refl d.sent)
          | leave r ↦ λ v d. returned _ _ d
        ])
  subscribe_loop_lem (suc n) root u q =
      Leaves-bind (with_lock P c.room_id (leave null) (subscribe_round P c root)) _ u
        (locked_round root u q)
        (elim [ again ↦ λ v d. subscribe_loop_lem n root v d | leave r ↦ λ v d. returned _ _ d ])

  -- Whatever the server answers and however often the publisher is looked up, `handleSubscribe`
  -- either throws or replies null, and queues nothing, or it replies with the subscriber's process.
  -- Then it has read a publisher of the stream with both SSRCs, and has queued the order to the
  -- subscriber's agent; before it stand the two orders of a new bridge exactly where that publisher
  -- has another agent and the bridges that were read have none that brings the stream to this one.
  pub handle_subscribe_lem :
      (root : Value) → Leaves (Subscribed root) (λ v. v.sent ≡ w.sent) (handle_subscribe P c root w)
  unfolding handle_subscribe
  handle_subscribe_lem root =
      Leaves-if (not (has P.json root "streamId" string_value)) _ _ w
        (λ _. returned _ _ (refused _ _ refl refl))
        λ _. subscribe_loop_lem 10 root w (SameQueues-refl w)
