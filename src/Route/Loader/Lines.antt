-- ===== src/Route/Loader/Lines.antt =====
-- route/IpTable.cpp: a file of well-formed lines is loaded into the table that its ranges make.
use Prim.Native.Char.{Char}
use erizo_controller.Base.{
  ℕ, true, false, ◌||◌, String, ◌==◌, some, List, [], ◌∷◌, ◌≡◌, refl, eqb, ltb, lookup, All, map,
}
use erizo_controller.Model.Outcome.{done}
use erizo_controller.Route.Enums.{IpTableValue}
use erizo_controller.Route.Text.{is_delim, split, trim}
use erizo_controller.Route.Text.Split.{IsPiece, join, split-join}
use erizo_controller.Route.Table.{IpTableKey, IpTableMap, insert}
use erizo_controller.Route.Loader.{
  Names, insert_range, load_fields, load_pieces, load_line, load_lines, load_isp_ip_data_file,
}

-- A range and the texts that stand for it in a line.
pub record Range : Type 0 where
  pub key : IpTableKey
  pub value : IpTableValue
  pub from_text : String
  pub to_text : String
  pub isp_text : String
  pub area_text : String

-- The line, with `d` between its fields.
unfoldable pub line_of : Char → Range → String
line_of d r = join d (r.from_text ∷ r.to_text ∷ r.isp_text ∷ r.area_text ∷ [])

-- The ranges, inserted in their order.
unfoldable pub insert_all : List Range → IpTableMap → IpTableMap
insert_all [] table = table
insert_all (r ∷ ranges) table = insert_all ranges (insert r.key r.value table)

module _ (address : String → ℕ) (names : Names) (delim : String) (d : Char) where
  -- The fields hold no delimiter and no spaces around, the names are known, and the addresses are
  -- those of the range, which is in order and does not touch 255.255.255.255.
  pub record IsLine (r : Range) : Type 0 where
    pub pieces :
        IsPiece delim r.from_text
        × (IsPiece delim r.to_text
            × (IsPiece delim r.isp_text × (IsPiece delim r.area_text × Unit {0})))
    pub line_trimmed : trim (line_of d r) ≡ line_of d r
    pub line_full : (line_of d r == "") ≡ false
    pub from_trimmed : trim r.from_text ≡ r.from_text
    pub to_trimmed : trim r.to_text ≡ r.to_text
    pub isp_trimmed : trim r.isp_text ≡ r.isp_text
    pub area_trimmed : trim r.area_text ≡ r.area_text
    pub isp_known : lookup r.isp_text names.isps ≡ some r.value.isp
    pub area_known : lookup r.area_text names.areas ≡ some r.value.area
    pub from_address : address r.from_text ≡ r.key.from
    pub to_address : address r.to_text ≡ r.key.to
    pub no_broadcast : (eqb r.key.from 4294967295 || eqb r.key.to 4294967295) ≡ false
    pub ordered : ltb r.key.to r.key.from ≡ false

  load_fields_lem :
      (r : Range) (table : IpTableMap)
      → IsLine r
      → load_fields address names r.from_text r.to_text r.isp_text r.area_text table
        ≡ done (insert r.key r.value table)
  unfolding load_fields insert_range
  load_fields_lem r table l =
      rw
        (
          load_fields, l.isp_trimmed, l.isp_known, l.area_trimmed, l.area_known, l.from_trimmed,
          l.to_trimmed, l.from_address, l.to_address, l.no_broadcast, l.ordered,
        )
        refl

  split-line_of :
      (r : Range)
      → is_delim delim d ≡ true
      → IsLine r
      → split delim (line_of d r) ≡ r.from_text ∷ r.to_text ∷ r.isp_text ∷ r.area_text ∷ []
  unfolding line_of
  split-line_of r t l =
      split-join delim d r.from_text (r.to_text ∷ r.isp_text ∷ r.area_text ∷ []) t l.pieces

  load_line_lem :
      (r : Range) (table : IpTableMap)
      → is_delim delim d ≡ true
      → IsLine r
      → load_line address names delim (line_of d r) table ≡ done (insert r.key r.value table)
  unfolding load_line load_pieces
  load_line_lem r table t l =
      rw (l.line_trimmed, l.line_full, split-line_of r t l) (load_fields_lem r table l)

  load_lines_lem :
      (ranges : List Range) (table : IpTableMap)
      → is_delim delim d ≡ true
      → All IsLine ranges
      → load_lines address names delim (map (line_of d) ranges) table
        ≡ done (insert_all ranges table)
  unfolding load_lines insert_all
  load_lines_lem [] table t ls = refl
  load_lines_lem (r ∷ ranges) table t (l, ls) =
      rw (load_line_lem r table t l) (load_lines_lem ranges (insert r.key r.value table) t ls)

  -- A file whose lines are four fields of a range each, with a delimiter between them, is loaded: the
  -- result is true, and the table is the one before with the ranges inserted in the order of the lines.
  -- The fields have no delimiter and no spaces around, the names are known to the table, the ranges
  -- are in order and do not begin or end at 255.255.255.255.
  pub load_isp_ip_data_file_lem :
      (ranges : List Range) (table : IpTableMap)
      → is_delim delim d ≡ true
      → All IsLine ranges
      → load_isp_ip_data_file address names delim (some (map (line_of d) ranges)) table
        ≡ done (true, insert_all ranges table)
  unfolding load_isp_ip_data_file
  load_isp_ip_data_file_lem ranges table t ls = rw (load_lines_lem ranges table t ls) refl
