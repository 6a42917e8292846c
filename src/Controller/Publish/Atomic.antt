-- ===== src/Controller/Publish/Atomic.antt =====
-- `handlePublish` tells the agent exactly if it replies.
use erizo_controller.Base.{ℕ, String, some, [], ◌∷◌, ◌++◌, not, ◌≡◌, refl, ap, ◌∙◌}
use erizo_controller.External.{Platform}
use erizo_controller.External.Json.{string_value}
use erizo_controller.Route.Enums.{isp_to_string}
use erizo_controller.Model.Fields.{has, array}
use erizo_controller.Model.Client.{Client}
use erizo_controller.Model.Publisher.{Publisher}
use erizo_controller.Process.State.{AmqpData, World}
use erizo_controller.Process.Frame.{SameQueues, SameQueues-trans}
use erizo_controller.Process.Ends.{Leaves, returned, Leaves-if, Leaves-or_throw, quiet_first}
use erizo_controller.Redis.Scope.{with_lock-Leaves}
use erizo_controller.Redis.Quiet.{put_field-IsQuiet, get_stream_id-IsQuiet}
use erizo_controller.Redis.Helper.{add_publisher_row}
use erizo_controller.Process.Clock.{get_stream_id}
use erizo_controller.Controller.Message.{one_way, rpc_not_reply, add_publisher, call}
use erizo_controller.Controller.Publish.{publisher_of, store_publisher, handle_publish}

module _ (P : Platform) where
  open P.json use {Value, null, of_string, member, as_string}

  -- What the agent of a publisher is sent.
  abbrev pub publish_order : World P → Client → Publisher → AmqpData
  publish_order w c p = one_way P w.config.uniquecast_exchange p.erizo_id (
      call P "addPublisher" (
        of_string c.room_id
        ∷ of_string p.client_id
        ∷ of_string p.id
        ∷ of_string p.label
        ∷ of_string w.reply_to
        ∷ of_string (isp_to_string c.ip_info.isp)
        ∷ []))

  -- The reply to a publisher's client.
  abbrev pub publish_reply : Publisher → Value
  publish_reply p = array P.json (of_string p.id ∷ of_string p.erizo_id ∷ [])

  -- What a publication may come to: a null reply and the queue as before, or the reply of a new
  -- publisher, labelled as the client asked, with the one message to its agent behind the queue.
  pub data Published (w : World P) (video audio : ℕ) (c : Client) (root : Value)
      : Value → World P → Type 0 where
    refused :
        (r : Value) (w' : World P)
        → r ≡ null
        → w'.sent ≡ w.sent
        → Published w video audio c root r w'
    accepted :
        (r : Value) (w' : World P) (id label : String)
        → as_string (member root "label") ≡ some label
        → r ≡ publish_reply (publisher_of c id label video audio)
        → w'.sent ≡ w.sent ++ (publish_order w c (publisher_of c id label video audio) ∷ [])
        → Published w video audio c root r w'

  Published-stable :
      (w : World P) (video audio : ℕ) (c : Client) (root r : Value) (u v : World P)
      → Published w video audio c root r u
      → SameQueues u v
      → Published w video audio c root r v
  Published-stable w video audio c root r u v (refused _ _ e s) q = refused r v e (q.sent ∙ s)
  Published-stable w video audio c root r u v (accepted _ _ id label l e s) q =
      accepted r v id label l e (q.sent ∙ s)

  store_publisher_lem :
      (w : World P) (video audio : ℕ) (c : Client) (root : Value) (id label : String) (w' : World P)
      → as_string (member root "label") ≡ some label
      → SameQueues w w'
      → Leaves
          (Published w video audio c root)
          (λ u. u.sent ≡ w.sent)
          (store_publisher P c (publisher_of c id label video audio) w')
  unfolding store_publisher add_publisher_row add_publisher rpc_not_reply
  store_publisher_lem w video audio c root id label w' l q =
      quiet_first (add_publisher_row P c.room_id (publisher_of c id label video audio)) _ w'
        (put_field-IsQuiet P _ _ _) (λ u s. s.sent ∙ q.sent)
        λ failed u s.
          Leaves-if failed _ _ u (λ _. returned _ _ (refused _ _ refl (s.sent ∙ q.sent)))
            λ _. returned _ _ (
              accepted _ _ id label l refl (
                rw (
                  s.sent ∙ q.sent,
                  s.reply_to ∙ q.reply_to,
                  ap (λ k. k.uniquecast_exchange) (s.config ∙ q.config),
                )))

  -- Whatever the server answers, `handlePublish` either throws or replies null, and queues nothing,
  -- or it replies with a new publisher, labelled as the client asked, and has queued one message:
  -- the order to the agent to publish the stream that the reply names.
  pub handle_publish_lem :
      (video audio : ℕ) (c : Client) (root : Value) (w : World P)
      → Leaves
          (Published w video audio c root)
          (λ w'. w'.sent ≡ w.sent)
          (handle_publish P video audio c root w)
  unfolding handle_publish
  handle_publish_lem video audio c root w =
      Leaves-if (not (has P.json root "label" string_value)) _ _ w
        (λ _. returned _ _ (refused _ _ refl refl))
        λ _. Leaves-or_throw (as_string (member root "label")) _ w refl λ label l.
          quiet_first (get_stream_id P) _ w (get_stream_id-IsQuiet P) (λ u s. s.sent)
            λ id u s.
              with_lock-Leaves P c.room_id null
                (store_publisher P c (publisher_of c id label video audio)) u
                (λ v t.
                  store_publisher_lem w video audio c root id label v l (SameQueues-trans s t))
                (λ v t. refused _ _ refl (t.sent ∙ s.sent)) (λ v t. t.sent ∙ s.sent)
                (Published-stable w video audio c root)
