-- ===== src/Controller/Answer.antt =====
-- The callback that `allocErizo` hands to `AMQPRPC::rpc`.
use erizo_controller.Base.{◌^◌, ◌&&◌, not, Option, none, some, if◌then◌else◌}
use erizo_controller.Base.Int.{to_unsigned}
use erizo_controller.External.Json.{JsonCpp, string_value, int_value}
use erizo_controller.Model.Outcome.{Outcome, done, ◌>>=◌, or_throw}
use erizo_controller.Model.Fields.{has, is_null}
use erizo_controller.Model.Client.{Client}

module _ (J : JsonCpp) where
  open J use {Value, member, as_string, as_int}

  -- The callback of `getErizo`: `none` is `ret = 1`.
  unfoldable pub read_erizo : Client → Value → Outcome (Option Client)
  read_erizo c root =
      if is_null J root
      then done none
      else if not (
          has J root "erizoID" string_value
          && has J root "bridgeIP" string_value
          && has J root "bridgePort" int_value)
      then done none
      else (do
        erizo_id ← or_throw (as_string (member root "erizoID"))
        bridge_ip ← or_throw (as_string (member root "bridgeIP"))
        bridge_port ← or_throw (as_int (member root "bridgePort"))
        done (
            some (record c {
              erizo_id = erizo_id;
              bridge_ip = bridge_ip;
              bridge_port = to_unsigned (2 ^ 16) bridge_port;
            })))
