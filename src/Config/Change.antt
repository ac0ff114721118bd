-- ===== src/Config/Change.antt =====
-- src/config/config.c: the setters and the prompt.
use fdc_sds_pio.Prelude.{
  Bool, Bytes, Option, [], codes, eq_bytes, false, if◌then◌else◌, leb, negsuc, none, not, pos, some,
  strlcpy, take, true, ℕ, ℤ, ◌++◌, ◌-◌, ◌==◌, ◌||◌,
}
use fdc_sds_pio.Config.{
  Config, Store, StrId, cfg_str_ftp_pass, cfg_str_ftp_user, cfg_str_ota_repo, cfg_str_time_zone,
  cfg_str_wifi_name, cfg_str_wifi_pass, cfg_str_wifi_ssid, config_file_cap, config_max_drive,
  or_else, str_cap,
}

-- The end of every setter: nothing where the value is the present one.
unfoldable pub set_unless : Bool → Config → Store → Store
set_unless same c s = if same then s else record s { cfg = c; dirty = true }

unfoldable pub eq_bool : Bool → Bool → Bool
eq_bool true b = b
eq_bool false b = not b

unfoldable pub config_set_baud : ℕ → Store → Store
config_set_baud baud s = set_unless (s.cfg.baud_rate == baud) (record s.cfg { baud_rate = baud }) s

unfoldable pub config_set_wifi_enabled : Bool → Store → Store
config_set_wifi_enabled enabled s =
    set_unless (eq_bool s.cfg.wifi_enabled enabled) (record s.cfg { wifi_enabled = enabled }) s

unfoldable pub config_set_telnet_enabled : Bool → Store → Store
config_set_telnet_enabled enabled s =
    set_unless (eq_bool s.cfg.telnet_enabled enabled) (record s.cfg { telnet_enabled = enabled }) s

unfoldable pub config_set_ftp_enabled : Bool → Store → Store
config_set_ftp_enabled enabled s =
    set_unless (eq_bool s.cfg.ftp_enabled enabled) (record s.cfg { ftp_enabled = enabled }) s

unfoldable pub config_set_tnfsd_enabled : Bool → Store → Store
config_set_tnfsd_enabled enabled s =
    set_unless (eq_bool s.cfg.tnfsd_enabled enabled) (record s.cfg { tnfsd_enabled = enabled }) s

unfoldable pub config_set_fdc_tcp_port : ℕ → Store → Store
config_set_fdc_tcp_port port s =
    set_unless (s.cfg.fdc_tcp_port == port) (record s.cfg { fdc_tcp_port = port }) s

unfoldable pub config_set_log_level : ℕ → Store → Store
config_set_log_level level s =
    set_unless (s.cfg.log_level == level) (record s.cfg { log_level = level }) s

-- The numbers of the enumeration.
unfoldable pub id_number : StrId → ℕ
id_number cfg_str_wifi_ssid = 0
id_number cfg_str_wifi_pass = 1
id_number cfg_str_wifi_name = 2
id_number cfg_str_time_zone = 3
id_number cfg_str_ftp_user = 4
id_number cfg_str_ftp_pass = 5
id_number cfg_str_ota_repo = 6

unfoldable pub eq_id : StrId → StrId → Bool
eq_id i j = id_number i == id_number j

-- `strncmp(dst, val, cap) == 0` for a string `dst` shorter than `cap`.
unfoldable pub same_text : ℕ → Bytes → Bytes → Bool
same_text cap dst val = eq_bytes dst (take cap val)

abbrev pub text : Option Bytes → Bytes
text val = or_else val []

-- An id outside the enumeration is refused by `str_field`, and is not in `StrId`.
unfoldable pub config_set_str : StrId → Option Bytes → Store → Store
config_set_str id val s =
    set_unless (same_text (str_cap id) (s.cfg.str id) (text val))
      (record s.cfg {
        str = λ i. if eq_id i id then strlcpy (str_cap id) (text val) else s.cfg.str i;
      })
      s

unfoldable pub config_set_drive : ℤ → Option Bytes → Store → Store
config_set_drive (negsuc n) filename s = s
config_set_drive (pos n) filename s =
    set_unless (leb config_max_drive n || same_text config_file_cap (s.cfg.drive n) (text filename))
      (record s.cfg {
        drive = λ i. if i == n then strlcpy config_file_cap (text filename) else s.cfg.drive i;
      })
      s

-- The prompt that fits in a buffer of `len` bytes; `none` where nothing is written.
unfoldable pub config_prompt : ℕ → Store → Option Bytes
config_prompt len s =
    if len == 0
    then none
    else some (
        take (len - 1)
          ((if s.dirty then codes "* " else []) ++ s.cfg.str cfg_str_wifi_name ++ codes "> "))
