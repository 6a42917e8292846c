-- ===== src/Route/Loader.antt =====
-- route/IpTable.cpp: `loadIspIpDataFile`, and the names of the providers and areas that it knows.
pub mod Lines
use erizo_controller.Base.{
  ℕ, Bool, true, false, ◌||◌, String, ◌==◌, Option, none, some, List, [], ◌∷◌, eqb, ltb, lookup,
  if◌then◌else◌,
}
use erizo_controller.Model.Outcome.{Outcome, done, thrown, ◌>>=◌}
use erizo_controller.Route.Enums
use erizo_controller.Route.Enums.{Isp, Area}
use erizo_controller.Route.Text.{split, trim}
use erizo_controller.Route.Table.{IpTableMap, insert}

-- `m_ispMap` and `m_areaMap`
pub record Names : Type 0 where
  pub isps : List (String × Isp)
  pub areas : List (String × Area)

-- The constructor.
abbrev pub new_names : Names
new_names = record {
  isps =
      ("AF", Enums.af)
      ∷ ("BGP", Enums.bgp)
      ∷ ("CNC", Enums.cnc)
      ∷ ("CNII", Enums.cnii)
      ∷ ("CTL", Enums.ctl)
      ∷ ("EDU", Enums.edu)
      ∷ ("EU", Enums.eu)
      ∷ ("MOB", Enums.mob)
      ∷ ("NA", Enums.na)
      ∷ ("OA", Enums.oa)
      ∷ ("TEST", Enums.test)
      ∷ ("WBN", Enums.wbn)
      ∷ [];
  areas =
      ("AF", Enums.af_area)
      ∷ ("BRA", Enums.bra_area)
      ∷ ("CNC_EC", Enums.cnc_ec)
      ∷ ("CNC_I", Enums.cnc_i)
      ∷ ("CNC_NC", Enums.cnc_nc)
      ∷ ("CNC_NE", Enums.cnc_ne)
      ∷ ("CNC_NW", Enums.cnc_nw)
      ∷ ("CNC_SC", Enums.cnc_sc)
      ∷ ("CNC_SW", Enums.cnc_sw)
      ∷ ("CNC_X", Enums.cnc_x)
      ∷ ("CTL_EAST", Enums.ctl_east)
      ∷ ("CTL_NORTH", Enums.ctl_north)
      ∷ ("CTL_SOUTH", Enums.ctl_south)
      ∷ ("CTL_WEST", Enums.ctl_west)
      ∷ ("CTL_X", Enums.ctl_x)
      ∷ ("EDU", Enums.edu_area)
      ∷ ("EU", Enums.eu_area)
      ∷ ("HK", Enums.hk_area)
      ∷ ("MOB", Enums.mob_area)
      ∷ ("NA", Enums.na_area)
      ∷ ("OA", Enums.oa_area)
      ∷ ("PH", Enums.ph_area)
      ∷ ("TEST", Enums.test_area)
      ∷ ("TW", Enums.tw_area)
      ∷ ("WBN", Enums.wbn_area)
      ∷ [];
}

-- `address` is `ntohl(inet_addr(…))`: 0xffffffff for a text that is no address.
module _ (address : String → ℕ) (names : Names) where
  -- `insert(ipFrom, ipTo, …)`, whose key asserts that the range is in order; `thrown` where it is not.
  unfoldable pub insert_range : ℕ → ℕ → Isp → Area → IpTableMap → Outcome IpTableMap
  insert_range from to isp area table =
      if ltb to from
      then thrown
      else done (insert (record { from = from; to = to }) (record { isp = isp; area = area }) table)

  -- A line with its four fields.
  unfoldable pub load_fields : String → String → String → String → IpTableMap → Outcome IpTableMap
  load_fields from to isp_str area_str table = elim (lookup (trim isp_str) names.isps) [
    | none ↦ done table
    | some isp ↦ elim (lookup (trim area_str) names.areas) [
      | none ↦ done table
      | some area ↦
          if eqb (address (trim from)) 4294967295 || eqb (address (trim to)) 4294967295
          then done table
          else insert_range (address (trim from)) (address (trim to)) isp area table
    ]
  ]

  -- A line with fewer than four fields is skipped.
  unfoldable pub load_pieces : List String → IpTableMap → Outcome IpTableMap
  load_pieces (from ∷ to ∷ isp ∷ area ∷ more) table = load_fields from to isp area table
  load_pieces _ table = done table

  unfoldable pub load_line : String → String → IpTableMap → Outcome IpTableMap
  load_line delim line table =
      let text = trim line in
      if text == "" then done table else load_pieces (split delim text) table

  unfoldable pub load_lines : String → List String → IpTableMap → Outcome IpTableMap
  load_lines delim [] table = done table
  load_lines delim (line ∷ lines) table = do
    table' ← load_line delim line table
    load_lines delim lines table'

  -- `loadIspIpDataFile` on the lines of the file, `none` where it is not there or does not open: the
  -- result, and the table.
  unfoldable pub load_isp_ip_data_file :
      String → Option (List String) → IpTableMap → Outcome (Bool × IpTableMap)
  load_isp_ip_data_file delim none table = done (false, table)
  load_isp_ip_data_file delim (some lines) table = do
    table' ← load_lines delim lines table
    done (true, table')
