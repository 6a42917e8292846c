-- ===== src/Controller/Remove/Released.antt =====
-- core/erizo_controller.cpp: the releases of bridges that `removeClient` makes.
use erizo_controller.Base.{
  false, String, none, some, List, ◌++ₛ◌, ◌≢◌, ◌≡◌, refl, find_if, Bool-cases, ap, ◌∙◌, inl, inr,
  if◌then◌else◌,
}
use erizo_controller.External.{Platform}
use erizo_controller.Model.Subscriber.{Subscriber}
use erizo_controller.External.Redis.{HashAnswers}
use erizo_controller.Model.BridgeStream.{BridgeStream, bridge_stream_to_json}
use erizo_controller.Model.Outcome.{Outcome, done, thrown}
use erizo_controller.Redis.Acl.{acl_hset, acl_hdel, acl_hvals}
use erizo_controller.Redis.Helper.{
  put_field, remove_field, get_all, get_all_bridge_stream, add_bridge_stream, remove_bridge_stream,
}
use erizo_controller.Process.State.{World, pure, continue}
use erizo_controller.Process.Ends.{
  Ends, ends, Leaves, returned, threw, Leaves-bind, Leaves-if, Leaves-option, Leaves-mono,
  Ends-Leaves, Ends-if,
}
use erizo_controller.Controller.Message.{
  remove_subscriber, notify_to_remove_subscriber, remove_virtual_subscriber,
  remove_virtual_publisher, rpc_not_reply,
}
use erizo_controller.Controller.Bridge.{
  brings, takes, tear_down, release_bridge, remove_bridge_stream_sub, remove_bridge_stream_pub,
}
use erizo_controller.Base.Int.{is_nonpos, pred}
use erizo_controller.Controller.Remove.{end_subscription}

-- The server answers every command on the bridges of a room.
module _ (P : Platform) (room_id : String)
    (H : HashAnswers P.redis ("bridge_stream_" ++ₛ room_id)) where
  -- An exception comes from the row of a bridge that `fromJSON` does not read.
  abbrev pub Unreadable : World P → Type 0
  Unreadable v = (u : World P) × (get_all_bridge_stream P room_id u ≡ (thrown, v))

  add_bridge_stream-Ends :
      (b : BridgeStream) (w : World P)
      → Ends (λ failed _. failed ≡ false) (add_bridge_stream P room_id b w)
  unfolding add_bridge_stream put_field acl_hset
  add_bridge_stream-Ends b w = elim (Bool-cases w.redis_ready) [
    | inl e ↦ rw (e, H.hset w.db b.id (bridge_stream_to_json P.json b)) (ends _ _ refl)
    | inr e ↦ rw e (ends _ _ refl)
  ]

  remove_bridge_stream-Ends :
      (id : String) (w : World P)
      → Ends (λ failed _. failed ≡ false) (remove_bridge_stream P room_id id w)
  unfolding remove_bridge_stream remove_field acl_hdel
  remove_bridge_stream-Ends id w = elim (Bool-cases w.redis_ready) [
    | inl e ↦ rw (e, H.hdel w.db id) (ends _ _ refl)
    | inr e ↦ rw e (ends _ _ refl)
  ]

  some_rows :
      (o : Outcome (List BridgeStream)) (v : World P)
      → (continue o (λ rows. pure (some rows)) v).0 ≢ done none
  some_rows (done rows) v e = cc
  some_rows thrown v e = cc

  never_none : (w : World P) → (get_all_bridge_stream P room_id w).0 ≢ done none
  unfolding get_all_bridge_stream get_all acl_hvals
  never_none w = elim (Bool-cases w.redis_ready) [
    | inl e ↦ rw (e, H.hgetall w.db) (some_rows _ _)
    | inr e ↦ rw e (some_rows _ _)
  ]

  -- What was read, with the equation.
  read_any :
      {A : Type 0} {Q : A → World P → Type 0} (o : Outcome A) (v : World P)
      → ((a : A) → o ≡ done a → Q a v)
      → Leaves Q (λ v'. ◌≡◌ {A = Outcome A × World P} (o, v) (thrown, v')) (o, v)
  read_any (done a) v k = returned a v (k a refl)
  read_any thrown v k = threw v refl

  get_all-Leaves :
      (w : World P) → Leaves (λ rows _. rows ≢ none) Unreadable (get_all_bridge_stream P room_id w)
  get_all-Leaves w =
      Leaves-mono _
        (read_any (get_all_bridge_stream P room_id w).0 (get_all_bridge_stream P room_id w).1
          λ rows e n. never_none w (e ∙ ap done n))
        (λ _ _ h. h) λ v e. (w, e)

  tear_down-Ends :
      (b : BridgeStream) (w : World P) → Ends (λ failed _. failed ≡ false) (tear_down P room_id b w)
  unfolding tear_down remove_virtual_subscriber remove_virtual_publisher rpc_not_reply
  tear_down-Ends b w = remove_bridge_stream-Ends b.id _

  release_bridge-Ends :
      (b : BridgeStream) (w : World P)
      → Ends (λ failed _. failed ≡ false) (release_bridge P room_id b w)
  unfolding release_bridge
  release_bridge-Ends b w =
      Ends-if (is_nonpos (pred b.subscribe_count)) _ _ w (λ _. tear_down-Ends _ w)
        λ _. add_bridge_stream-Ends _ w

  -- A bridge is released: this does not fail.
  pub sub-Leaves :
      (stream_id erizo_id : String) (w : World P)
      → Leaves
          (λ failed _. failed ≡ false)
          Unreadable
          (remove_bridge_stream_sub P room_id stream_id erizo_id w)
  unfolding remove_bridge_stream_sub
  sub-Leaves stream_id erizo_id w =
      Leaves-bind (get_all_bridge_stream P room_id) _ w (get_all-Leaves w) λ rows v n.
        Leaves-option rows _ _ v (λ e. absurd (n e))
          λ bridges _.
            Leaves-option (find_if (brings stream_id erizo_id) bridges) _ _ v
              (λ _. returned _ _ refl) λ b _. Ends-Leaves _ (release_bridge-Ends b v)

  pub pub_row-Leaves :
      (stream_id erizo_id : String) (w : World P)
      → Leaves
          (λ failed _. failed ≡ false)
          Unreadable
          (remove_bridge_stream_pub P room_id stream_id erizo_id w)
  unfolding remove_bridge_stream_pub
  pub_row-Leaves stream_id erizo_id w =
      Leaves-bind (get_all_bridge_stream P room_id) _ w (get_all-Leaves w) λ rows v n.
        Leaves-option rows _ _ v (λ e. absurd (n e))
          λ bridges _.
            Leaves-option (find_if (takes stream_id erizo_id) bridges) _ _ v
              (λ _. returned _ _ refl) λ b _. Ends-Leaves _ (tear_down-Ends b v)

  pub end_subscription-Leaves :
      (s : Subscriber) (w : World P)
      → Leaves (λ failed _. failed ≡ false) Unreadable (end_subscription P room_id s w)
  unfolding end_subscription remove_subscriber notify_to_remove_subscriber rpc_not_reply
  end_subscription-Leaves s w =
      Leaves-bind
        (if s.is_bridge
          then remove_bridge_stream_sub P room_id s.subscribe_to s.erizo_id
          else pure false)
        _ w
        (Leaves-if s.is_bridge _ _ w (λ _. sub-Leaves s.subscribe_to s.erizo_id w)
          λ _. returned _ _ refl)
        λ failed v n. Leaves-if failed _ _ v (λ e. absurd (cc (e, n))) λ _. returned _ _ refl
