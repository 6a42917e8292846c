-- ===== src/Redis/Rows.antt =====
-- redis/redis_helper.cpp: the rows of a hash as a map from ids to rows, under writes and removals.
pub mod All
pub mod Publishers
use erizo_controller.Base.{
  Bool, true, false, String, ◌==◌, ◌++ₛ◌, Option, none, some, List, [], ◌∷◌, ◌≡◌, refl, ap, sym,
  ◌∙◌, inl, inr, pos, arith, eq_iff, eq_refl, lookup, contains, Bool-cases, Option-cases,
  if◌then◌else◌,
}
use mathlib.Core.Option.{map}
use erizo_controller.Base.Int.{is_minus_one}
use erizo_controller.External.{Platform}
use erizo_controller.External.Redis.{RedisLaws, HashAnswers}
use erizo_controller.Model.Outcome.{Outcome, done}
use erizo_controller.Process.State.{World, Exec, pure, ◌>>=◌, ◌>>◌}
use erizo_controller.Process.Ends.{Ends, ends, Ends-bind}
use erizo_controller.Redis.Acl.{acl_hset, acl_hget, acl_hdel_fields, fill_text}
use erizo_controller.Redis.Helper.{put_field, remove_fields, get_field}

-- What is done to the rows.
pub data RowOp (A : Type 0) : Type 0 where
  put : A → RowOp A
  remove : List String → RowOp A

module _ {A : Type 0} (id_of : A → String) where
  -- The map that the rows stand for, after a write or a removal.
  abbrev pub apply : RowOp A → (String → Option A) → String → Option A
  apply (put a) rows id = if id_of a == id then some a else rows id
  apply (remove ids) rows id = if contains id ids then none else rows id

  unfoldable pub apply_all : List (RowOp A) → (String → Option A) → String → Option A
  apply_all [] rows = rows
  apply_all (op ∷ ops) rows = apply_all ops (apply op rows)

module _ {A : Type 0} (Fits : A → Type 0) where
  abbrev pub AllPut : List (RowOp A) → Type 0
  AllPut [] = Unit
  AllPut (put a ∷ ops) = Fits a × AllPut ops
  AllPut (remove ids ∷ ops) = AllPut ops

module _ (P : Platform) {A : Type 0} (id_of : A → String) (to_json : A → String)
    (key : String) where
  unfoldable pub run_op : RowOp A → Exec P Bool
  run_op (put a) = put_field P key (id_of a) (to_json a)
  run_op (remove ids) = remove_fields P key ids

  unfoldable pub run_ops : List (RowOp A) → Exec P (Unit {0})
  run_ops [] = pure tt
  run_ops (op ∷ ops) = do run_op op; run_ops ops

module _ (P : Platform) {A : Type 0} (to_json : A → String) (Fits : A → Type 0) (key : String) where
  -- The hash holds the texts of these rows, and nothing else.
  pub record Represents (rows : String → Option A) (w : World P) : Type 0 where
    pub ready : w.redis_ready ≡ true
    pub at : (id : String) → lookup id (P.redis.hash_at w.db key) ≡ map to_json (rows id)
    pub fits : (id : String) (a : A) → rows id ≡ some a → Fits a

-- What is read of an id: its row, or what `fromJSON` makes of the empty text.
abbrev pub read_back : {A : Type 0} → (String → Outcome (Option A)) → Option A → Outcome (Option A)
read_back from_json none = from_json ""
read_back from_json (some a) = done (some a)

-- A type of rows: those that fit their text are read back from it, and no text is empty.
module _ (P : Platform) {A : Type 0} (id_of : A → String) (to_json : A → String)
    (from_json : String → Outcome (Option A)) (Fits : A → Type 0) (key : String)
    (L : RedisLaws P.redis) (H : HashAnswers P.redis key)
    (full : (a : A) → (to_json a == "") ≡ false)
    (back : (a : A) → Fits a → from_json (to_json a) ≡ done (some a)) where
  map_if :
      (b : Bool) (a : A) (o : Option A)
      → (if b then some (to_json a) else map to_json o) ≡ map to_json (if b then some a else o)
  map_if true a o = refl
  map_if false a o = refl

  map_unless :
      (b : Bool) (o : Option A)
      → (if b then none else map to_json o) ≡ map to_json (if b then none else o)
  map_unless true o = refl
  map_unless false o = refl

  fits_if :
      (b : Bool) (a a' : A) (o : Option A)
      → Fits a
      → (o ≡ some a' → Fits a')
      → (if b then some a else o) ≡ some a'
      → Fits a'
  fits_if true a a' o h k e = let same : a ≡ a' = cc e in rw (sym same) h
  fits_if false a a' o h k e = k e

  fits_unless :
      (b : Bool) (a' : A) (o : Option A)
      → (o ≡ some a' → Fits a')
      → (if b then none else o) ≡ some a'
      → Fits a'
  fits_unless true a' o k e = absurd (cc e)
  fits_unless false a' o k e = k e

  put-Represents :
      (rows : String → Option A) (a : A) (w : World P)
      → Fits a
      → Represents P to_json Fits key rows w
      → Ends
          (λ _ w'. Represents P to_json Fits key (apply id_of (put a) rows) w')
          (put_field P key (id_of a) (to_json a) w)
  unfolding put_field acl_hset
  put-Represents rows a w h r =
      rw (r.ready, acl_hset)
        (ends _ _ (record {
          ready = refl;
          at = λ id.
              L.hset_stores w.db key (id_of a) (to_json a) key id
                (H.hset w.db (id_of a) (to_json a))
              ∙ rw (eq_refl key, r.at id) (map_if (id_of a == id) a (rows id));
          fits = λ id a' e. fits_if (id_of a == id) a a' (rows id) h (r.fits id a') e;
        }))

  remove-Represents :
      (rows : String → Option A) (ids : List String) (w : World P)
      → Represents P to_json Fits key rows w
      → Ends
          (λ _ w'. Represents P to_json Fits key (apply id_of (remove ids) rows) w')
          (remove_fields P key ids w)
  unfolding remove_fields acl_hdel_fields
  remove-Represents rows ids w r =
      rw (r.ready, acl_hdel_fields)
        (ends _ _ (record {
          ready = refl;
          at = λ id.
              L.hdel_fields_removes w.db key ids key id (H.hdel_fields w.db ids)
              ∙ rw (eq_refl key, r.at id) (map_unless (contains id ids) (rows id));
          fits = λ id a' e. fits_unless (contains id ids) a' (rows id) (r.fits id a') e;
        }))

  pub run_ops-Represents :
      (ops : List (RowOp A)) (rows : String → Option A) (w : World P)
      → AllPut Fits ops
      → Represents P to_json Fits key rows w
      → Ends
          (λ _ w'. Represents P to_json Fits key (apply_all id_of ops rows) w')
          (run_ops P id_of to_json key ops w)
  unfolding run_ops run_op apply_all
  run_ops-Represents [] rows w all r = ends _ _ r
  run_ops-Represents (put a ∷ ops) rows w (h, all) r =
      Ends-bind (put_field P key (id_of a) (to_json a)) _ w (put-Represents rows a w h r)
        λ _ w' r'. run_ops-Represents ops (apply id_of (put a) rows) w' all r'
  run_ops-Represents (remove ids ∷ ops) rows w all r =
      Ends-bind (remove_fields P key ids) _ w (remove-Represents rows ids w r)
        λ _ w' r'. run_ops-Represents ops (apply id_of (remove ids) rows) w' all r'

  pub get-Represents :
      (rows : String → Option A) (id : String) (w : World P)
      → Represents P to_json Fits key rows w
      → (get_field P from_json key id w).0 ≡ read_back from_json (rows id)
  unfolding get_field acl_hget
  get-Represents rows id w r = elim (Option-cases (rows id)) [
    | inl e ↦
        rw (e, r.ready, H.hget w.db id, L.hget_misses w.db key id (r.at id ∙ ap (map to_json) e))
          refl
    | inr (a, e) ↦
        rw
          (
            e,
            r.ready,
            H.hget w.db id,
            L.hget_reads w.db key id (to_json a) (H.hget w.db id) (r.at id ∙ ap (map to_json) e),
            full a,
            back a (r.fits id a e),
          )
          refl
  ]
