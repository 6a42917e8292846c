-- ===== src/Controller/Signaling/Notified.antt =====
-- core/erizo_controller.cpp: what the task of `notifyToSubscribe` sends.
use erizo_controller.Base.{String, Option, none, some, List, ◌++◌, ◌≡◌, refl, ap, ◌∙◌, map}
use erizo_controller.External.{Platform}
use erizo_controller.Model.Outcome.{Outcome, done}
use erizo_controller.Model.Client.{Client}
use erizo_controller.Model.Publisher.{Publisher}
use erizo_controller.Process.State.{World}
use erizo_controller.Process.Frame.{SameQueues, SameQueues-trans}
use erizo_controller.Process.Ends.{
  Leaves, returned, quiet_continue, Leaves-option, Leaves-mono, Ends-Leaves,
}
use erizo_controller.Redis.Helper.{get_publisher, get_all_client}
use erizo_controller.Redis.Quiet.{get_publisher-IsQuiet, get_all-IsQuiet}
use erizo_controller.Controller.Signaling.{run_subscribe}
use erizo_controller.Controller.Signaling.Broadcast.{announcement, others, tell_others_lem}

module _ (P : Platform) (room_id client_id stream_id : String) (w : World P) where
  -- What is read of the stream's publisher, and then of the clients of the room: those whose rows
  -- `fromJSON` accepts, in the order of the rows.
  abbrev pub publisher_read : Outcome (Option Publisher) × World P
  publisher_read = get_publisher P room_id stream_id w

  abbrev pub clients_read : Outcome (Option (List Client)) × World P
  clients_read = get_all_client P room_id publisher_read.1

  -- What the task comes to where it returns.
  pub data Announced (w' : World P) : Type 0 where
    no_publisher : publisher_read.0 ≡ done none → w'.sent ≡ w.sent → Announced w'
    no_clients :
        (p : Publisher)
        → publisher_read.0 ≡ done (some p)
        → clients_read.0 ≡ done none
        → w'.sent ≡ w.sent
        → Announced w'
    announced :
        (p : Publisher) (clients : List Client)
        → publisher_read.0 ≡ done (some p)
        → clients_read.0 ≡ done (some clients)
        → w'.sent
          ≡ w.sent
            ++ map
                (announcement P w.config.uniquecast_exchange p stream_id)
                (others P client_id clients)
        → Announced w'

  get_all_client_quiet : SameQueues publisher_read.1 clients_read.1
  unfolding get_all_client
  get_all_client_quiet = (get_all-IsQuiet P _ _).at publisher_read.1

  -- The task of `notifyToSubscribe` announces the stream of the publisher that it reads to each client
  -- of the room that it reads but the one with the id `client_id`, once and in the order of the
  -- rows, and sends nothing else; where there is no such publisher, or a read fails or
  -- throws, it sends nothing.
  pub run_subscribe_lem :
      Leaves
        (λ _. Announced)
        (λ w'. w'.sent ≡ w.sent)
        (run_subscribe P room_id client_id stream_id w)
  unfolding run_subscribe
  run_subscribe_lem =
      let q = (get_publisher-IsQuiet P room_id stream_id).at w in
      let all = SameQueues-trans q get_all_client_quiet in
      quiet_continue _ publisher_read.0 publisher_read.1 q.sent λ row e.
        Leaves-option row _ _ publisher_read.1
          (λ n. returned _ _ (no_publisher (e ∙ ap done n) q.sent))
          λ p n. quiet_continue _ clients_read.0 clients_read.1 all.sent λ rows f.
            Leaves-option rows _ _ clients_read.1
              (λ m. returned _ _ (no_clients p (e ∙ ap done n) (f ∙ ap done m) all.sent))
              λ clients m.
                Leaves-mono _
                  (Ends-Leaves _ (tell_others_lem P p client_id stream_id clients clients_read.1))
                  (λ _ w' k.
                    announced p clients (e ∙ ap done n) (f ∙ ap done m)
                      (rw (k.1, all.sent, ap (λ x. x.uniquecast_exchange) all.config) refl))
                  λ w' t. t
