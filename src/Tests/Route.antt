-- ===== src/Tests/Route.antt =====
-- The table of address ranges at concrete ranges.
use erizo_controller.Base.{ℕ, some, [], ◌∷◌, ◌≡◌, inl, inr, arith}
use erizo_controller.Route.Enums.{IpTableValue, ctl, ctl_east, cnc, cnc_ne}
use erizo_controller.Route.Table.{IpTableKey, IpTableMap, point, insert, find}
use erizo_controller.Route.Table.Lookup.{IsApart, scan, find-scan, find-insert}

abbrev range : ℕ → ℕ → IpTableKey
range low high = record { from = low; to = high }

abbrev east : IpTableValue
east = record { isp = ctl; area = ctl_east }

abbrev north : IpTableValue
north = record { isp = cnc; area = cnc_ne }

abbrev table : IpTableMap
table = (range 10 19, east) ∷ (range 40 49, east) ∷ []

table-IsApart : IsApart table
table-IsApart = (omega arith, (omega arith, tt), (omega arith, tt, tt))

find-scan_example : find (point 45) table ≡ some east
unfolding scan
find-scan_example = find-scan 45 table table-IsApart

find-insert_example :
    IsApart (insert (range 20 29) north table)
    × (find (point 25) (insert (range 20 29) north table) ≡ some north)
find-insert_example =
    find-insert 25 (range 20 29) north table (omega arith) table-IsApart
      (inl (omega arith), (inr (omega arith), tt))
