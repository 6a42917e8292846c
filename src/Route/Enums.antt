-- ===== src/Route/Enums.antt =====
-- The enumerations and `IP_TABLE_VALUE` of route/IP_TABLE.h, and `isp2String` of common/utils.h.
use erizo_controller.Base.{ℕ, Bool, true, false, String}

-- `ISPType`
pub data Isp : Type 0 where
  auto_detect ctl cnc mutil cnii edu wbn mob bgp asia sa_isp eu na test oa af intranet max_isp : Isp

-- `AreaType`
pub data Area : Type 0 where
  area_unknown ctl_east ctl_west ctl_south ctl_north ctl_x : Area
  cnc_ne cnc_nc cnc_sc cnc_i cnc_x cnc_ec cnc_sw cnc_nw : Area
  cnii_area edu_area wbn_area mob_area bgp_area hk_area ph_area tw_area bra_area : Area
  eu_area na_area test_area oa_area af_area area_invalid : Area

-- The numbers of the enumerators: `(int)area`.
unfoldable pub area_code : Area → ℕ
area_code area_unknown = 0
area_code ctl_east = 16
area_code ctl_west = 17
area_code ctl_south = 18
area_code ctl_north = 19
area_code ctl_x = 20
area_code cnc_ne = 32
area_code cnc_nc = 33
area_code cnc_sc = 34
area_code cnc_i = 35
area_code cnc_x = 36
area_code cnc_ec = 37
area_code cnc_sw = 38
area_code cnc_nw = 39
area_code cnii_area = 64
area_code edu_area = 128
area_code wbn_area = 256
area_code mob_area = 512
area_code bgp_area = 1024
area_code hk_area = 2048
area_code ph_area = 2049
area_code tw_area = 2050
area_code bra_area = 4096
area_code eu_area = 8192
area_code na_area = 16384
area_code test_area = 32768
area_code oa_area = 65536
area_code af_area = 131072
area_code area_invalid = 0xFFFFFFFF

unfoldable pub isp_to_string : Isp → String
isp_to_string auto_detect = "AUTO_DETECT"
isp_to_string ctl = "CTL"
isp_to_string cnc = "CNC"
isp_to_string mutil = "MUTIL"
isp_to_string cnii = "CNII"
isp_to_string edu = "EDU"
isp_to_string wbn = "WBN"
isp_to_string mob = "MOB"
isp_to_string bgp = "BGP"
isp_to_string asia = "ASIA"
isp_to_string sa_isp = "SA_ISP"
isp_to_string eu = "EU"
isp_to_string na = "NA"
isp_to_string test = "TEST"
isp_to_string oa = "OA"
isp_to_string af = "AF"
isp_to_string intranet = "INTRANET"
isp_to_string max_isp = "MAX_ISP"

pub record IpTableValue : Type 0 where
  pub isp : Isp
  pub area : Area

-- The default constructor.
abbrev pub unknown_value : IpTableValue
unknown_value = record { isp = auto_detect; area = area_unknown }

-- `isp == AUTO_DETECT`
abbrev pub is_auto_detect : Isp → Bool
is_auto_detect auto_detect = true
is_auto_detect _ = false

-- `area == AREA_UNKNOWN`
abbrev pub is_area_unknown : Area → Bool
is_area_unknown area_unknown = true
is_area_unknown _ = false
