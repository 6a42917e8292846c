-- ===== src/Tests/Loader.antt =====
-- The loader of the address table on two lines.
use erizo_controller.Base.{
  ℕ, true, String, ◌==◌, some, [], ◌∷◌, map, lookup, ◌≡◌, refl, if◌then◌else◌,
}
use erizo_controller.Model.Outcome.{done, thrown}
use erizo_controller.Route.Enums.{ctl, ctl_east}
use erizo_controller.Route.Text.{
  is_delim, split, trim, trim_left, trim_right, all_space, drop_spaces,
}
use erizo_controller.Route.Text.Split.{is_piece, before, join}
use erizo_controller.Route.Loader.{
  new_names, insert_range, load_fields, load_pieces, load_line, load_isp_ip_data_file,
}
use erizo_controller.Route.Loader.Lines.{
  Range, line_of, insert_all, IsLine, load_isp_ip_data_file_lem,
}

-- The addresses of the examples, and none for other texts.
abbrev address : String → ℕ
address text =
    if text == "1.0.0.0" then 16777216 else if text == "1.0.0.255" then 16777471 else 4294967295

abbrev east_range : Range
east_range = record {
  key = record { from = 16777216; to = 16777471 };
  value = record { isp = ctl; area = ctl_east };
  from_text = "1.0.0.0";
  to_text = "1.0.0.255";
  isp_text = "CTL";
  area_text = "CTL_EAST";
}

east_range-IsLine : IsLine address new_names " " " " east_range
unfolding line_of join before is_piece is_delim trim trim_left trim_right all_space drop_spaces
    lookup
east_range-IsLine = record {
  pieces = (refl, (refl, (refl, (refl, tt))));
  line_trimmed = refl;
  line_full = refl;
  from_trimmed = refl;
  to_trimmed = refl;
  isp_trimmed = refl;
  area_trimmed = refl;
  isp_known = refl;
  area_known = refl;
  from_address = refl;
  to_address = refl;
  no_broadcast = refl;
  ordered = refl;
}

blank_delim : is_delim " " " " ≡ true
unfolding is_delim
blank_delim = refl

load_isp_ip_data_file_example :
    load_isp_ip_data_file address new_names " " (some (map (line_of " ") (east_range ∷ []))) []
    ≡ done (true, insert_all (east_range ∷ []) [])
load_isp_ip_data_file_example =
    load_isp_ip_data_file_lem address new_names " " " " (east_range ∷ []) [] blank_delim
      (east_range-IsLine, tt)

-- A range that is out of order fails the assertion of its key.
out_of_order : load_line address new_names " " "1.0.0.255 1.0.0.0 CTL CTL_EAST" [] ≡ thrown
unfolding load_line load_pieces load_fields insert_range split trim trim_left trim_right all_space
    drop_spaces is_delim lookup
out_of_order = refl
