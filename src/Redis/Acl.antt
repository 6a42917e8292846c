-- ===== src/Redis/Acl.antt =====
-- redis/acl_redis.cpp: each command goes to the server, unless `init` was not called. The `int`
-- result is then 0 (`return false`), and the texts that a call fills in stay as they were.
use erizo_controller.Base.{ℤ, pos, true, false, String, List, [], ◌==◌, map, if◌then◌else◌}
use erizo_controller.External.{Platform}
use erizo_controller.Process.State.{World, Exec}
use erizo_controller.Model.Outcome.{Outcome, done}

module _ (P : Platform) where
  open P.redis use {setnx, set, get, getset, del_one, hset, hget, hdel, hdel_fields, hgetall}

  -- `init` and `close`; the cluster that they make and drop is the server's side.
  unfoldable pub acl_init : Exec P ℤ
  acl_init w =
      if w.redis_ready then (done (pos 0), w) else (done (pos 0), record w { redis_ready = true })

  unfoldable pub acl_close : Exec P (Unit {0})
  acl_close w = if w.redis_ready then (done tt, record w { redis_ready = false }) else (done tt, w)

  -- The result of a command, with the state that it leaves.
  abbrev pub answer : {A : Type 0} → World P → A → P.redis.Db → Outcome A × World P
  answer w a db = (done a, record w { db = db })

  -- `if (!buf.empty()) value = buf.c_str();`
  abbrev pub fill_text : String → String → String
  fill_text old buf = if buf == "" then old else buf

  unfoldable pub acl_setnx : String → String → Exec P ℤ
  acl_setnx key value w =
      if w.redis_ready
      then (let (res, db) = setnx w.db key value in answer w res db)
      else (done (pos 0), w)

  unfoldable pub acl_set : String → String → Exec P ℤ
  acl_set key value w =
      if w.redis_ready
      then (let (res, db) = set w.db key value in answer w res db)
      else (done (pos 0), w)

  unfoldable pub acl_get : String → String → Exec P (ℤ × String)
  acl_get key value w =
      if w.redis_ready
      then (let (res, buf, db) = get w.db key in answer w (res, fill_text value buf) db)
      else (done (pos 0, value), w)

  unfoldable pub acl_getset : String → String → String → Exec P (ℤ × String)
  acl_getset key value old_value w =
      if w.redis_ready
      then (let (res, buf, db) = getset w.db key value in
          answer w (res, fill_text old_value buf) db)
      else (done (pos 0, old_value), w)

  unfoldable pub acl_del : String → Exec P ℤ
  acl_del key w =
      if w.redis_ready
      then (let (res, db) = del_one w.db key in answer w res db)
      else (done (pos 0), w)

  unfoldable pub acl_hset : String → String → String → Exec P ℤ
  acl_hset key field value w =
      if w.redis_ready
      then (let (res, db) = hset w.db key field value in answer w res db)
      else (done (pos 0), w)

  unfoldable pub acl_hget : String → String → String → Exec P (ℤ × String)
  acl_hget key field value w =
      if w.redis_ready
      then (let (res, buf, db) = hget w.db key field in answer w (res, fill_text value buf) db)
      else (done (pos 0, value), w)

  unfoldable pub acl_hdel : String → String → Exec P ℤ
  acl_hdel key field w =
      if w.redis_ready
      then (let (res, db) = hdel w.db key field in answer w res db)
      else (done (pos 0), w)

  -- The overload for several fields.
  unfoldable pub acl_hdel_fields : String → List String → Exec P ℤ
  acl_hdel_fields key fields w =
      if w.redis_ready
      then (let (res, db) = hdel_fields w.db key fields in answer w res db)
      else (done (pos 0), w)

  -- `hvals`: the values alone, which is what every caller uses of it.
  unfoldable pub acl_hvals : String → Exec P (ℤ × List String)
  acl_hvals key w =
      if w.redis_ready
      then (let (res, buf, db) = hgetall w.db key in answer w (res, map (λ e. e.1) buf) db)
      else (done (pos 0, []), w)
