-- ===== src/Controller/Remove.antt =====
-- core/erizo_controller.cpp: `removeClient`, which clears a client out of its room, and
-- `removeExpireErizoController`.
pub mod Released
pub mod Cleared
use erizo_controller.Base.{
  Bool, true, false, ◌&&◌, not, String, ◌==◌, Option, none, some, List, [], ◌∷◌, ◌++◌, map, keep_if,
  if◌then◌else◌,
}
use erizo_controller.External.{Platform}
use erizo_controller.Model.Client.{Client}
use erizo_controller.Model.Publisher.{Publisher}
use erizo_controller.Model.Subscriber.{Subscriber}
use erizo_controller.Process.State.{World, Exec, pure, gets, ◌>>=◌, ◌>>◌}
use erizo_controller.Redis.Helper.{
  get_all_subscriber, get_all_publisher, remove_subscribers, remove_publishers, remove_client_row,
  remove_client_from_ec, get_all_client_from_ec,
}
use erizo_controller.Redis.Locker.{with_lock}
use erizo_controller.Controller.Message.{
  remove_publisher, remove_subscriber, notify_to_remove_subscriber,
}
use erizo_controller.Controller.Bridge.{remove_bridge_stream_sub, remove_bridge_stream_pub}

-- Another client's subscription to a stream of this client.
abbrev pub follows : String → Subscriber → Publisher → Bool
follows client_id s p = p.client_id == client_id && s.subscribe_to == p.id

abbrev pub is_empty {ℓ} : {A : Type ℓ} → List A → Bool
is_empty [] = true
is_empty (x ∷ xs) = false

module _ (P : Platform) where
  -- One subscription ends: its bridge, the agent and the subscriber's controller. `true` stands for
  -- the early return where the bridge could not be released.
  unfoldable pub end_subscription : String → Subscriber → Exec P Bool
  end_subscription room_id s = do
    failed ←
        if s.is_bridge
        then remove_bridge_stream_sub P room_id s.subscribe_to s.erizo_id
        else pure false
    if failed
        then pure true
        else do remove_subscriber P s; notify_to_remove_subscriber P s; pure false

  -- The inner loop: the ids that it adds to `subscribers_to_del`, `none` for the early return.
  unfoldable pub end_followed : Client → Subscriber → List Publisher → Exec P (Option (List String))
  end_followed c s [] = pure (some [])
  end_followed c s (p ∷ publishers) = do
    let rest = end_followed c s publishers
    if follows c.id s p
        then (do
          failed ← end_subscription c.room_id s
          if failed
              then pure none
              else do ids ← rest; pure (elim ids [ none ↦ none | some js ↦ some (s.id ∷ js) ]))
        else rest

  -- The end of a round of the outer loop: the client's own subscription.
  unfoldable pub end_own : Client → Subscriber → Exec P (Option (List String))
  end_own c s =
      if s.client_id == c.id
      then (do
        failed ← end_subscription c.room_id s
        pure (if failed then none else some (s.id ∷ [])))
      else pure (some [])

  unfoldable pub end_subscriptions :
      Client → List Publisher → List Subscriber → Exec P (Option (List String))
  end_subscriptions c publishers [] = pure (some [])
  end_subscriptions c publishers (s ∷ subscribers) = do
    let rest = end_subscriptions c publishers subscribers
    followed ← end_followed c s publishers
    elim followed [
      | none ↦ pure none
      | some is ↦ do
        own ← end_own c s
        elim own [
          | none ↦ pure none
          | some js ↦ do
            ids ← rest
            pure (elim ids [ none ↦ none | some ks ↦ some (is ++ (js ++ ks)) ])
        ]
    ]

  -- The second loop: `publishers_to_del`.
  unfoldable pub end_publications : Client → List Publisher → Exec P (Option (List String))
  end_publications c [] = pure (some [])
  end_publications c (p ∷ publishers) = do
    let rest = end_publications c publishers
    if p.client_id == c.id
        then (do
          failed ← remove_bridge_stream_pub P c.room_id p.id p.erizo_id
          if failed then pure none else do
            remove_publisher P p
            ids ← rest
            pure (elim ids [ none ↦ none | some js ↦ some (p.id ∷ js) ]))
        else rest

  -- The rows that go, and the client's own; the results are not looked at.
  unfoldable pub delete_rows : Client → List String → List String → Exec P (Unit {0})
  delete_rows c subscribers_to_del publishers_to_del = do
    if is_empty subscribers_to_del
        then pure false
        else remove_subscribers P c.room_id subscribers_to_del
    if is_empty publishers_to_del
        then pure false
        else remove_publishers P c.room_id publishers_to_del
    remove_client_row P c.room_id c.id
    remove_client_from_ec P c.reply_to c.id
    pure tt

  -- `removeClient` under the lock, after the rows of the room were read.
  unfoldable pub clear_room : Client → List Subscriber → List Publisher → Exec P (Unit {0})
  clear_room c subscribers publishers = do
    gone ← end_subscriptions c publishers subscribers
    elim gone [
      | none ↦ pure tt
      | some subscribers_to_del ↦ do
        ended ← end_publications c publishers
        elim ended [
          | none ↦ pure tt
          | some publishers_to_del ↦ delete_rows c subscribers_to_del publishers_to_del
        ]
    ]

  unfoldable pub remove_client : Client → Exec P (Unit {0})
  remove_client c = with_lock P c.room_id tt (do
    subs ← get_all_subscriber P c.room_id
    elim subs [
      | none ↦ pure tt
      | some subscribers ↦ do
        pubs ← get_all_publisher P c.room_id
        elim pubs [ none ↦ pure tt | some publishers ↦ clear_room c subscribers publishers ]
    ])

  unfoldable pub remove_clients : List Client → Exec P (Unit {0})
  remove_clients [] = pure tt
  remove_clients (c ∷ clients) = do remove_client c; remove_clients clients

  unfoldable pub remove_expire_erizo_controller : String → Exec P (Unit {0})
  remove_expire_erizo_controller erizo_controller_id = do
    rows ← get_all_client_from_ec P erizo_controller_id
    elim rows [ none ↦ pure tt | some clients ↦ remove_clients clients ]
