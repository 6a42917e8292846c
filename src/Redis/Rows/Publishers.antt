-- ===== src/Redis/Rows/Publishers.antt =====
-- redis/redis_helper.cpp: the publishers of a room as a map from ids to publishers.
use erizo_controller.Base.{◌≤◌, ◌<◌, String, ◌++ₛ◌, Option, some, List, [], ◌∷◌, ◌≡◌, refl, ap, sym}
use erizo_controller.External.{Platform}
use erizo_controller.External.Json.{JsonLaws, max_uint}
use erizo_controller.External.Redis.{RedisLaws, HashAnswers}
use erizo_controller.Model.Publisher.{Publisher, publisher_to_json, publisher_from_json}
use erizo_controller.Model.RoundTrip.{publisher_round_trip}
use erizo_controller.Model.Outcome.{done}
use erizo_controller.Process.State.{World, Exec, pure, ◌>>=◌, ◌>>◌}
use erizo_controller.Process.Ends.{Ends, Ends-bind, Ends-result}
use erizo_controller.Redis.Helper.{
  add_publisher_row, remove_publishers, get_publisher, get_all_publisher,
}
use erizo_controller.Redis.Store.{publisher_text_full}
use erizo_controller.Redis.Rows.{
  RowOp, put, remove, apply_all, AllPut, run_op, run_ops, Represents, run_ops-Represents, read_back,
  get-Represents,
}
use erizo_controller.Redis.Rows.All.{Keyed, apply_all-Keyed, AllOf, get_all-Represents}

-- The numbers of a publisher that its text keeps.
pub record FitsText (p : Publisher) : Type 0 where
  pub port : p.bridge_port < 65536
  pub video : p.video_ssrc ≤ max_uint
  pub audio : p.audio_ssrc ≤ max_uint

module _ (P : Platform) (room_id : String) where
  abbrev pub publishers_key : String
  publishers_key = "publisher_" ++ₛ room_id

  -- Calls of `addPublisher` and `removePublishers` for one room.
  unfoldable pub publisher_ops : List (RowOp Publisher) → Exec P (Unit {0})
  publisher_ops [] = pure tt
  publisher_ops (put p ∷ ops) = do add_publisher_row P room_id p; publisher_ops ops
  publisher_ops (remove ids ∷ ops) = do remove_publishers P room_id ids; publisher_ops ops

  run_ops-publishers :
      (ops : List (RowOp Publisher))
      → run_ops P (λ p. p.id) (publisher_to_json P.json) publishers_key ops ≡ publisher_ops ops
  unfolding run_ops run_op publisher_ops add_publisher_row remove_publishers
  run_ops-publishers [] = refl
  run_ops-publishers (put p ∷ ops) =
      ap (λ (k : Exec P (Unit {0})). add_publisher_row P room_id p >>= λ _. k)
        (run_ops-publishers ops)
  run_ops-publishers (remove ids ∷ ops) =
      ap (λ (k : Exec P (Unit {0})). remove_publishers P room_id ids >>= λ _. k)
        (run_ops-publishers ops)

  -- The publishers of the room in the server are this map.
  abbrev pub HoldsRows : (String → Option Publisher) → World P → Type 0
  HoldsRows = Represents P (publisher_to_json P.json) FitsText publishers_key

  module _ (J : JsonLaws P.json) (L : RedisLaws P.redis)
      (H : HashAnswers P.redis publishers_key) where
    back :
        (p : Publisher)
        → FitsText p
        → publisher_from_json P.json (publisher_to_json P.json p) ≡ done (some p)
    back p h = publisher_round_trip P.json J p h.port h.video h.audio

    publisher_ops-Represents :
        (ops : List (RowOp Publisher)) (rows : String → Option Publisher) (w : World P)
        → AllPut FitsText ops
        → HoldsRows rows w
        → Ends (λ _. HoldsRows (apply_all (λ p. p.id) ops rows)) (publisher_ops ops w)
    publisher_ops-Represents ops rows w all r = rw (sym (run_ops-publishers ops)) (
        run_ops-Represents P (λ p. p.id) (publisher_to_json P.json) (publisher_from_json P.json)
          FitsText publishers_key L H (publisher_text_full P J) back ops rows w all r)

    -- Where the server answers, each publisher that is written fits its text, and the map has each
    -- publisher under its id, then after any calls of `addPublisher` and `removePublishers`
    -- `getPublisher` reads what the map has under the id after the same writes and removals, or, where
    -- it has nothing, what `fromJSON` makes of the empty text; and `getAllPublisher` returns a list of
    -- exactly the publishers of that map.
    pub publishers_refine :
        (ops : List (RowOp Publisher)) (rows : String → Option Publisher) (id : String)
        (w : World P)
        → AllPut FitsText ops
        → Keyed (λ p. p.id) rows
        → HoldsRows rows w
        → (((publisher_ops ops >> get_publisher P room_id id) w).0
            ≡ read_back (publisher_from_json P.json) (apply_all (λ p. p.id) ops rows id))
          × Ends
              (AllOf P (λ p. p.id) (apply_all (λ p. p.id) ops rows))
              ((publisher_ops ops >> get_all_publisher P room_id) w)
    unfolding get_publisher get_all_publisher
    publishers_refine ops rows id w all k r = (
      Ends-result (publisher_ops ops) _ _ w (publisher_ops-Represents ops rows w all r) λ _ w' r'.
          get-Represents P (λ p. p.id) (publisher_to_json P.json) (publisher_from_json P.json)
            FitsText publishers_key L H (publisher_text_full P J) back
            (apply_all (λ p. p.id) ops rows) id w' r',
      Ends-bind (publisher_ops ops) _ w (publisher_ops-Represents ops rows w all r) λ _ w' r'.
          get_all-Represents P (λ p. p.id) (publisher_to_json P.json) (publisher_from_json P.json)
            FitsText publishers_key L H back (apply_all (λ p. p.id) ops rows) w'
            (apply_all-Keyed (λ p. p.id) ops rows k) r',
    )
