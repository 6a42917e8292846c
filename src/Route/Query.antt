-- ===== src/Route/Query.antt =====
-- route/route.cpp: `Route`, and the changes of the names and defaults of the table (route/IpTable.cpp).
use erizo_controller.Base.{ℕ, Bool, true, false, String, ◌==◌, Option, List, [], ◌∷◌, if◌then◌else◌}
use erizo_controller.Model.Outcome.{Outcome, done, ◌>>=◌}
use erizo_controller.Route.Enums.{Isp, Area, IpTableValue}
use erizo_controller.Route.Table.{IpTableMap, Defaults, get_ip_table_value}
use erizo_controller.Route.Loader.{Names, load_isp_ip_data_file}

-- `m[name] = v` and `m.erase(name)`
unfoldable pub put_name : {V : Type 0} → String → V → List (String × V) → List (String × V)
put_name name v [] = (name, v) ∷ []
put_name name v ((k, u) ∷ m) =
    let rest = put_name name v m in if k == name then (k, v) ∷ m else (k, u) ∷ rest

unfoldable pub erase_name : {V : Type 0} → String → List (String × V) → List (String × V)
erase_name name [] = []
erase_name name ((k, u) ∷ m) =
    let rest = erase_name name m in if k == name then m else (k, u) ∷ rest

unfoldable pub add_new_isp : String → Isp → Names → Names
add_new_isp name isp names = record names { isps = put_name name isp names.isps }

unfoldable pub remove_isp : String → Names → Names
remove_isp name names = record names { isps = erase_name name names.isps }

unfoldable pub add_new_area : String → Area → Names → Names
add_new_area name area names = record names { areas = put_name name area names.areas }

unfoldable pub remove_area : String → Names → Names
remove_area name names = record names { areas = erase_name name names.areas }

unfoldable pub set_default : Isp → Area → Defaults → Defaults
set_default isp area defaults = record { isp = isp; area = area }

-- `Route::init` on the lines of the file: `true` is the return value 1.
unfoldable pub route_init :
    (String → ℕ) → Names → Option (List String) → IpTableMap → Outcome (Bool × IpTableMap)
route_init address names lines table = do
  (loaded, table') ← load_isp_ip_data_file address names " " lines table
  done (if loaded then false else true, table')

-- `Route::processIP`; `inet_pton` is the number that it leaves in `in`, whatever it is where the text
-- is no address.
unfoldable pub process_ip : (ℕ → ℕ) → (String → ℕ) → Defaults → IpTableMap → String → IpTableValue
process_ip ntohl inet_pton defaults table ip =
    get_ip_table_value ntohl defaults (inet_pton ip) table
