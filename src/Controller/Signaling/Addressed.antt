-- ===== src/Controller/Signaling/Addressed.antt =====
-- core/erizo_controller.cpp: whom the task of a signaling message sends events to.
use mathlib.Core.List.{append-nil}
use erizo_controller.Base.{
  ℕ, ◌&&◌, String, Option, none, some, List, [], ◌∷◌, ◌++◌, All, ◌≡◌, refl, sym, Bool-cases,
  Option-cases, inl, inr, if◌then◌else◌,
}
use erizo_controller.External.{Platform}
use erizo_controller.External.Json.{string_value, object_value}
use erizo_controller.Model.Fields.{has, has_members}
use erizo_controller.Process.State.{World, SioData, Exec, pure, lift, ◌>>=◌}
use erizo_controller.Process.Frame.{IsQuiet, IsQuiet-pure, quiet_rules}
use erizo_controller.Redis.Locker.{with_lock}
use erizo_controller.Redis.Quiet.{
  lock-IsQuiet, unlock-IsQuiet, get_publisher-IsQuiet, add_publisher_row-IsQuiet,
}
use erizo_controller.Controller.Event.{send_events, publisher_answer_event}
use erizo_controller.Model.Publisher.{Publisher}
use erizo_controller.Model.Outcome.{or_throw}
use erizo_controller.Redis.Helper.{get_publisher, add_publisher_row}
use erizo_controller.Controller.Signaling.{
  on_started, store_answer, on_publisher_answer, on_subscriber_answer, notify_to_subscribe,
  on_ready, on_new_publisher, on_remove_subscriber, signaling_events, run_signaling,
}
use erizo_controller.Controller.Signaling.OnlyTo.{
  OnlyTo, quiet-OnlyTo, OnlyTo-pure, OnlyTo-lift, OnlyTo-if, OnlyTo-bind, only_to_rules,
  task-OnlyTo, close-OnlyTo, send_events-OnlyTo,
}

module _ (P : Platform) where
  open P.json use {Value, member, as_string, as_uint, parse}

  with_lock-OnlyTo :
      {A : Type 0} (to key : String) (failed : A) (body : Exec P A)
      → OnlyTo to body
      → OnlyTo to (with_lock P key failed body)
  unfolding with_lock
  with_lock-OnlyTo to key failed body h =
      OnlyTo-bind to _ _ (quiet-OnlyTo to _ (lock-IsQuiet P key _)) λ (got, l).
        OnlyTo-bind to _ _
          (OnlyTo-if to got body (pure failed) h (quiet-OnlyTo to _ (IsQuiet-pure failed)))
          λ r.
            OnlyTo-bind to _ _ (quiet-OnlyTo to _ (unlock-IsQuiet P l))
              λ _. quiet-OnlyTo to _ (IsQuiet-pure r)

  on_started-IsQuiet : (info : Value) → IsQuiet (on_started P info)
  unfolding on_started
  on_started-IsQuiet info = search quiet_rules

  on_subscriber_answer-IsQuiet : (info : Value) → IsQuiet (on_subscriber_answer P info)
  unfolding on_subscriber_answer
  on_subscriber_answer-IsQuiet info = search quiet_rules

  on_new_publisher-IsQuiet : (info : Value) → IsQuiet (on_new_publisher P info)
  unfolding on_new_publisher
  on_new_publisher-IsQuiet info = search quiet_rules

  on_remove_subscriber-IsQuiet : (info : Value) → IsQuiet (on_remove_subscriber P info)
  unfolding on_remove_subscriber
  on_remove_subscriber-IsQuiet info = search quiet_rules

  -- What is done with the row of the publisher.
  abbrev with_row : String → String → String → ℕ → ℕ → Option Publisher → Exec P (List Value)
  with_row room_id stream_id sdp video_ssrc audio_ssrc none = pure []
  with_row room_id stream_id sdp video_ssrc audio_ssrc (some p) = do
    failed ←
        add_publisher_row P room_id (record p { video_ssrc = video_ssrc; audio_ssrc = audio_ssrc })
    pure (if failed then [] else publisher_answer_event P.json stream_id sdp ∷ [])

  with_row-OnlyTo :
      (to room_id stream_id sdp : String) (video_ssrc audio_ssrc : ℕ) (row : Option Publisher)
      → OnlyTo to (with_row room_id stream_id sdp video_ssrc audio_ssrc row)
  with_row-OnlyTo to room_id stream_id sdp video_ssrc audio_ssrc none = OnlyTo-pure to []
  with_row-OnlyTo to room_id stream_id sdp video_ssrc audio_ssrc (some p) =
      search (only_to_rules, quiet-OnlyTo, add_publisher_row-IsQuiet)

  store_answer-OnlyTo :
      (to : String) (info : Value) (room_id stream_id sdp : String)
      → OnlyTo to (store_answer P info room_id stream_id sdp)
  unfolding store_answer
  store_answer-OnlyTo to info room_id stream_id sdp =
      OnlyTo-bind to (lift (or_throw (as_uint (member info "videoSSRC")))) _ (OnlyTo-lift to _)
        λ video_ssrc.
          OnlyTo-bind to (lift (or_throw (as_uint (member info "audioSSRC")))) _ (OnlyTo-lift to _)
            λ audio_ssrc. with_lock-OnlyTo to room_id [] _ (
              OnlyTo-bind to (get_publisher P room_id stream_id)
                (with_row room_id stream_id sdp video_ssrc audio_ssrc)
                (quiet-OnlyTo to _ (get_publisher-IsQuiet P room_id stream_id))
                (with_row-OnlyTo to room_id stream_id sdp video_ssrc audio_ssrc))

  on_publisher_answer-OnlyTo : (to : String) (info : Value) → OnlyTo to (on_publisher_answer P info)
  unfolding on_publisher_answer
  on_publisher_answer-OnlyTo to info = search (only_to_rules, store_answer-OnlyTo)

  on_ready-OnlyTo : (to client_id : String) (info : Value) → OnlyTo to (on_ready P client_id info)
  unfolding on_ready notify_to_subscribe
  on_ready-OnlyTo to client_id info = search (only_to_rules, with_lock-OnlyTo, task-OnlyTo) depth 12

  signaling_events-OnlyTo :
      (type client_id : String) (info : Value)
      → OnlyTo client_id (signaling_events P type client_id info)
  unfolding signaling_events
  signaling_events-OnlyTo type client_id info =
      search
        (
          only_to_rules, quiet-OnlyTo, on_started-IsQuiet, on_publisher_answer-OnlyTo,
          on_subscriber_answer-IsQuiet, on_ready-OnlyTo, on_new_publisher-IsQuiet,
          on_remove_subscriber-IsQuiet, close-OnlyTo,
        )
        depth 12

  -- The client that a message names.
  pub record IsFor (msg client_id : String) : Type 0 where
    pub root : Value
    pub parsed : parse msg ≡ some root
    pub named : as_string (member (member root "data") "clientId") ≡ some client_id

  -- The events that were added are for the client that the message names, and nothing was sent to agents
  -- or controllers.
  abbrev pub TellsNamed : String → World P → World P → Type 0
  TellsNamed msg w w' =
      (added : List SioData) × (w'.events ≡ w.events ++ added)
      × All (λ d. IsFor msg d.client_id) added
      × (w'.sent ≡ w.sent)

  nothing : (msg : String) (w : World P) → TellsNamed msg w w
  nothing msg w = ([], sym (append-nil w.events), tt, refl)

  name_them :
      (msg client_id : String) (added : List SioData)
      → IsFor msg client_id
      → All (λ d. d.client_id ≡ client_id) added
      → All (λ d. IsFor msg d.client_id) added
  name_them msg client_id [] h k = tt
  name_them msg client_id (d ∷ added) h (e, k) = (rw e h, name_them msg client_id added h k)

  dispatched :
      (msg type client_id : String) (info : Value) (w : World P)
      → IsFor msg client_id
      → TellsNamed msg w
          ((signaling_events P type client_id info >>= λ events. send_events P client_id events)
            w).1
  dispatched msg type client_id info w h =
      let adds =
        (OnlyTo-bind client_id (signaling_events P type client_id info) _
            (signaling_events-OnlyTo type client_id info) (send_events-OnlyTo client_id)).at
          w in
      (adds.added, adds.events, name_them msg client_id adds.added h adds.for_client, adds.sent)

  -- Whatever a signaling message says, its task queues events for the client alone that the message
  -- names, whether it returns or throws, and sends no message over AMQP.
  pub run_signaling_lem : (msg : String) (w : World P) → TellsNamed msg w (run_signaling P msg w).1
  unfolding run_signaling
  run_signaling_lem msg w = elim (Option-cases (parse msg)) [
    | inl e ↦ rw (run_signaling, e) (nothing msg w)
    | inr (root, e) ↦
        let info = member root "data" in
        elim (Bool-cases (has_members P.json root)) [
          | inr m ↦ rw (run_signaling, e, m) (nothing msg w)
          | inl m ↦ elim (Bool-cases (has P.json root "data" object_value)) [
            | inr d ↦ rw (run_signaling, e, m, d) (nothing msg w)
            | inl d ↦
                elim (Bool-cases (
                  has P.json info "type" string_value && has P.json info "clientId" string_value)) [
                    | inr f ↦ rw (run_signaling, e, m, d, f) (nothing msg w)
                    | inl f ↦ elim (Option-cases (as_string (member info "type"))) [
                      | inl t ↦ rw (run_signaling, e, m, d, f, t) (nothing msg w)
                      | inr (type, t) ↦ elim (Option-cases (as_string (member info "clientId"))) [
                        | inl c ↦ rw (run_signaling, e, m, d, f, t, c) (nothing msg w)
                        | inr (client_id, c) ↦
                            rw (run_signaling, e, m, d, f, t, c)
                              (dispatched msg type client_id info w
                                (record { root = root; parsed = e; named = c }))
                      ]
                    ]
                  ]
          ]
        ]
  ]
