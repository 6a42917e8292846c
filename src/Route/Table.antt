-- ===== src/Route/Table.antt =====
-- route/IP_TABLE.h and route/IpTable.cpp: the table of address ranges. `std::map` is the list of its
-- entries in the order of `operator<`, which alone decides where a key goes and which is found.
pub mod Order
pub mod Lookup
use erizo_controller.Base.{
  ℕ, Bool, true, false, ◌&&◌, ◌||◌, not, Option, none, some, List, [], ◌∷◌, leb, ltb, if◌then◌else◌,
}
use erizo_controller.Route.Enums.{
  Isp, Area, IpTableValue, unknown_value, is_auto_detect, is_area_unknown,
}

-- `IP_TABLE_KEY`: a range of addresses, both ends included.
pub record IpTableKey : Type 0 where
  pub from : ℕ
  pub to : ℕ

-- `IP_TABLE_KEY( ip )`
abbrev pub point : ℕ → IpTableKey
point ip = record { from = ip; to = ip }

-- `operator==`: one range lies in the other.
unfoldable pub key_eq : IpTableKey → IpTableKey → Bool
key_eq a b =
    if leb a.from b.from && leb b.to a.to
    then true
    else if leb b.from a.from && leb a.to b.to
    then true
    else false

-- `operator!=`
unfoldable pub key_ne : IpTableKey → IpTableKey → Bool
key_ne a b =
    if leb a.from b.from && leb b.to a.to
    then false
    else if leb b.from a.from && leb a.to b.to
    then false
    else true

-- `operator>`
unfoldable pub key_gt : IpTableKey → IpTableKey → Bool
unfolding key_eq
key_gt a b = if key_eq a b then false else ltb b.to a.to

-- `operator<`
unfoldable pub key_lt : IpTableKey → IpTableKey → Bool
unfolding key_eq
key_lt a b = if key_eq a b then false else ltb a.from b.from

-- `IP_TABLE_MAP`
abbrev pub IpTableMap : Type 0
IpTableMap = List (IpTableKey × IpTableValue)

-- `insert`: a key that is equivalent to one of the map is not taken in.
unfoldable pub insert : IpTableKey → IpTableValue → IpTableMap → IpTableMap
insert k v [] = (k, v) ∷ []
insert k v ((j, u) ∷ table) =
    let rest = insert k v table in
    if key_lt j k
    then (j, u) ∷ rest
    else if key_lt k j
    then (k, v) ∷ (j, u) ∷ table
    else (j, u) ∷ table

-- `find`
unfoldable pub find : IpTableKey → IpTableMap → Option IpTableValue
find k [] = none
find k ((j, u) ∷ table) =
    let rest = find k table in if key_lt j k then rest else if key_lt k j then none else some u

-- `IP_TABLE::getValue`
unfoldable pub get_value : ℕ → IpTableMap → IpTableValue
get_value ip table = elim (find (point ip) table) [ none ↦ unknown_value | some v ↦ v ]

-- `m_defaultIsp` and `m_defaultArea`
pub record Defaults : Type 0 where
  pub isp : Isp
  pub area : Area

-- The queries of `IpTable`; `ntohl` is the system's.
module _ (ntohl : ℕ → ℕ) (defaults : Defaults) where
  unfoldable pub get_isp_type : ℕ → IpTableMap → Isp
  get_isp_type ip table =
      let value = get_value (ntohl ip) table in
      if not (is_auto_detect value.isp) then value.isp else defaults.isp

  unfoldable pub get_area_type : ℕ → IpTableMap → Area
  get_area_type ip table =
      let value = get_value (ntohl ip) table in
      if not (is_area_unknown value.area) then value.area else defaults.area

  unfoldable pub get_ip_table_value : ℕ → IpTableMap → IpTableValue
  get_ip_table_value ip table =
      let value = get_value (ntohl ip) table in
      record {
        isp = if is_auto_detect value.isp then defaults.isp else value.isp;
        area = if is_area_unknown value.area then defaults.area else value.area;
      }

  unfoldable pub is_ip_partitioned : ℕ → IpTableMap → Bool
  is_ip_partitioned ip table = not (is_auto_detect (get_value (ntohl ip) table).isp)
