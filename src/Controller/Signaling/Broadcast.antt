-- ===== src/Controller/Signaling/Broadcast.antt =====
-- Whom a new stream is announced to.
use mathlib.Core.List.{append_assoc, append-nil}
use erizo_controller.Base.{
  String, ◌==◌, not, List, [], ◌∷◌, ◌++◌, ◌≡◌, refl, sym, ◌∙◌, map, keep_if, Bool-cases, inl, inr,
}
use erizo_controller.External.{Platform}
use erizo_controller.Model.Fields.{object}
use erizo_controller.Model.Client.{Client}
use erizo_controller.Model.Publisher.{Publisher}
use erizo_controller.Process.State.{AmqpData, World}
use erizo_controller.Process.Ends.{Ends, ends, Ends-bind, Ends-if, Ends-mono}
use erizo_controller.Controller.Message.{one_way, rpc_not_reply}
use erizo_controller.Controller.Signaling.{tell_new_publisher, tell_unless_same, tell_others}

module _ (P : Platform) where
  open P.json use {of_string}

  -- The announcement of a publisher's stream to one client, on the queue of its controller.
  abbrev pub announcement : String → Publisher → String → Client → AmqpData
  announcement exchange p stream_id c = one_way P exchange c.reply_to (
      object P.json (
        ("type", of_string "new_publisher")
        ∷ ("streamId", of_string stream_id)
        ∷ ("clientId", of_string c.id)
        ∷ ("label", of_string p.label)
        ∷ []))

  -- The other clients of the room.
  abbrev pub others : String → List Client → List Client
  others client_id = keep_if (λ c. not (c.id == client_id))

  tell_one :
      (p : Publisher) (client_id stream_id : String) (c : Client) (w : World P)
      → Ends
          (λ _ w'.
            (w'.config ≡ w.config)
            × (w'.sent
                ≡ w.sent
                  ++ map
                      (announcement w.config.uniquecast_exchange p stream_id)
                      (others client_id (c ∷ []))))
          (tell_unless_same P p client_id stream_id c w)
  unfolding tell_unless_same tell_new_publisher rpc_not_reply one_way keep_if
  tell_one p client_id stream_id c w =
      Ends-if (c.id == client_id) _ _ w (λ e. ends _ _ (refl, rw e (sym (append-nil _))))
        λ e. ends _ _ (refl, rw e)

  -- The loop sends one announcement to each client of the list but the publisher's own, in their
  -- order, and nothing else.
  pub tell_others_lem :
      (p : Publisher) (client_id stream_id : String) (clients : List Client) (w : World P)
      → Ends
          (λ _ w'.
            (w'.config ≡ w.config)
            × (w'.sent
                ≡ w.sent
                  ++ map
                      (announcement w.config.uniquecast_exchange p stream_id)
                      (others client_id clients)))
          (tell_others P p client_id stream_id clients w)
  unfolding tell_others keep_if
  tell_others_lem p client_id stream_id [] w = ends _ _ (refl, sym (append-nil _))
  tell_others_lem p client_id stream_id (c ∷ clients) w =
      Ends-bind (tell_unless_same P p client_id stream_id c) _ w
        (tell_one p client_id stream_id c w)
        λ _ w' k.
          Ends-mono _ (tell_others_lem p client_id stream_id clients w')
            λ _ w'' k'. (k'.0 ∙ k.0, rw k'.1 (rw k.0 (rw k.1 (joined w.sent))))
    where
      joined :
          (sent : List AmqpData)
          → (sent
                ++ map
                    (announcement w.config.uniquecast_exchange p stream_id)
                    (others client_id (c ∷ [])))
              ++ map
                  (announcement w.config.uniquecast_exchange p stream_id)
                  (others client_id clients)
            ≡ sent
              ++ map
                  (announcement w.config.uniquecast_exchange p stream_id)
                  (others client_id (c ∷ clients))
      joined sent = elim (Bool-cases (c.id == client_id)) [
        | inl e ↦ rw e (rw (append-nil sent))
        | inr e ↦ rw e (append_assoc sent _ _)
      ]
