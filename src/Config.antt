-- ===== src/Config.antt =====
-- include/config.h, src/config/config.c: the configuration, its copy in flash and the setters.
use fdc_sds_pio.Prelude.{
  Bool, Bytes, List, Option, [], codes, false, if◌then◌else◌, inl, inr, none, not, some, true, ℕ,
  ◌==◌, ◌∷◌, ◌⊎◌,
}
use fdc_sds_pio.Esp.{Esp, err_not_found, err_other, esp_ok}
pub mod Stored
pub mod Reload
pub mod Wipe
pub mod Change
pub mod Setters
pub mod Settings

-- `config_str_id_t`
pub data StrId : Type 0 where
  cfg_str_wifi_ssid cfg_str_wifi_pass cfg_str_wifi_name cfg_str_time_zone : StrId
  cfg_str_ftp_user cfg_str_ftp_pass cfg_str_ota_repo : StrId

-- `config_t`, its seven strings by their id. `drive n` matters for n < 4.
pub record Config : Type 0 where
  pub baud_rate : ℕ
  pub log_level : ℕ
  pub wifi_enabled : Bool
  pub telnet_enabled : Bool
  pub ftp_enabled : Bool
  pub tnfsd_enabled : Bool
  pub fdc_tcp_port : ℕ
  pub str : StrId → Bytes
  pub drive : ℕ → Bytes

-- The static variables.
pub record Store : Type 0 where
  pub cfg : Config
  pub dirty : Bool
  pub loaded : Bool

abbrev pub config_max_drive : ℕ
config_max_drive = 4

-- The capacities, with the terminator.
unfoldable pub str_cap : StrId → ℕ
str_cap cfg_str_wifi_ssid = 81
str_cap cfg_str_wifi_pass = 81
str_cap cfg_str_wifi_name = 41
str_cap cfg_str_time_zone = 41
str_cap cfg_str_ftp_user = 33
str_cap cfg_str_ftp_pass = 33
str_cap cfg_str_ota_repo = 65

abbrev pub config_file_cap : ℕ
config_file_cap = 129

-- The NVS keys.
pub data Key : Type 0 where
  key_baud key_loglvl key_wifi_en key_telneten key_ftp_en key_tnfsd_en key_fdctcp : Key
  key_str : StrId → Key
  key_drive : ℕ → Key

unfoldable pub default_str : StrId → Bytes
default_str cfg_str_wifi_ssid = []
default_str cfg_str_wifi_pass = []
default_str cfg_str_wifi_name = codes "FDC-SDS-ESP32"
default_str cfg_str_time_zone = codes "UTC0"
default_str cfg_str_ftp_user = codes "fdc"
default_str cfg_str_ftp_pass = codes "fdc"
default_str cfg_str_ota_repo = codes "deltecent/fdc-sds-pio"

-- `ESP_LOG_WARN` is 2.
unfoldable pub set_defaults : Config
set_defaults = record {
  baud_rate = 403200;
  log_level = 2;
  wifi_enabled = false;
  telnet_enabled = true;
  ftp_enabled = true;
  tnfsd_enabled = true;
  fdc_tcp_port = 0;
  str = default_str;
  drive = λ n. [];
}

-- The results of the NVS calls that the code tells apart.
pub data NvsInit : Type 0 where
  nvs_ok nvs_no_free_pages nvs_new_version : NvsInit
  nvs_failed : Esp → NvsInit

-- The NVS library on the `fdcsds` namespace. A read gives `none` for a key that is absent or not
-- readable; a string does not fit under a capacity.
pub record Nvs (N : Type 0) : Type 0 where
  pub flash_init : N → NvsInit × N
  -- Where it fails, ESP_ERROR_CHECK stops the program.
  pub flash_erase : N → N
  pub open_read : N → Esp × N
  pub open_write : N → Esp × N
  pub close : N → N
  pub get_num : Key → N → Option ℕ
  pub get_str : Key → ℕ → N → Option Bytes
  pub set_num : Key → ℕ → N → Esp × N
  pub set_str : Key → Bytes → N → Esp × N
  pub commit : N → Esp × N
  pub erase_all : N → Esp × N

abbrev pub or_else {ℓ} : {A : Type ℓ} → Option A → A → A
or_else none a = a
or_else (some b) a = b

-- `u8 != 0`, with the present value for a missing key.
unfoldable pub flag_or : Option ℕ → Bool → Bool
flag_or none b = b
flag_or (some n) b = not (n == 0)

unfoldable pub flag : Bool → ℕ
flag b = if b then 1 else 0

module _ {N : Type 0} (nvs : Nvs N) where
  unfoldable pub load_from_nvs : N → Config → Config
  load_from_nvs n c = record {
    baud_rate = or_else (nvs.get_num key_baud n) c.baud_rate;
    log_level = or_else (nvs.get_num key_loglvl n) c.log_level;
    wifi_enabled = flag_or (nvs.get_num key_wifi_en n) c.wifi_enabled;
    telnet_enabled = flag_or (nvs.get_num key_telneten n) c.telnet_enabled;
    ftp_enabled = flag_or (nvs.get_num key_ftp_en n) c.ftp_enabled;
    tnfsd_enabled = flag_or (nvs.get_num key_tnfsd_en n) c.tnfsd_enabled;
    fdc_tcp_port = or_else (nvs.get_num key_fdctcp n) c.fdc_tcp_port;
    str = λ id. or_else (nvs.get_str (key_str id) (str_cap id) n) (c.str id);
    drive = λ d. or_else (nvs.get_str (key_drive d) config_file_cap n) (c.drive d);
  }

  unfoldable pub init_opened : Esp × N → Store → Esp × Store × N
  init_opened (esp_ok, n) s =
      (esp_ok, record { cfg = load_from_nvs n s.cfg; dirty = false; loaded = true }, nvs.close n)
  init_opened (err_not_found, n) s = (esp_ok, record s { dirty = false; loaded = true }, n)
  init_opened (err, n) s = (err, s, n)

  -- After `nvs_flash_init`, repeated once behind an erase.
  unfoldable pub init_flash : NvsInit × N → Store → Esp × Store × N
  init_flash (nvs_ok, n) s = init_opened (nvs.open_read n) s
  init_flash (nvs_failed err, n) s = (err, s, n)
  init_flash (nvs_no_free_pages, n) s = (err_other 4365, s, n)
  init_flash (nvs_new_version, n) s = (err_other 4368, s, n)

  unfoldable pub recover : NvsInit × N → NvsInit × N
  recover (nvs_no_free_pages, n) = nvs.flash_init (nvs.flash_erase n)
  recover (nvs_new_version, n) = nvs.flash_init (nvs.flash_erase n)
  recover (r, n) = (r, n)

  unfoldable pub config_init : Store → N → Esp × Store × N
  config_init s n = init_flash (recover (nvs.flash_init n)) (record s { cfg = set_defaults })

  -- One of the writes of `config_save`: a number or a string.
  unfoldable pub put : Key × (ℕ ⊎ Bytes) → N → Esp × N
  put (k, inl v) n = nvs.set_num k v n
  put (k, inr v) n = nvs.set_str k v n

  -- `if (err == ESP_OK) err = ...`
  unfoldable pub and_then : Esp × N → (N → Esp × N) → Esp × N
  and_then (esp_ok, n) next = next n
  and_then (err, n) next = (err, n)

  unfoldable pub put_all : List (Key × (ℕ ⊎ Bytes)) → N → Esp × N
  unfolding put and_then
  put_all [] n = nvs.commit n
  put_all (x ∷ xs) n = and_then (put x n) (put_all xs)

  -- The writes, in their order.
  unfoldable pub entries : Config → List (Key × (ℕ ⊎ Bytes))
  entries c =
      (key_baud, inl c.baud_rate)
      ∷ (key_loglvl, inl c.log_level)
      ∷ (key_wifi_en, inl (flag c.wifi_enabled))
      ∷ (key_telneten, inl (flag c.telnet_enabled))
      ∷ (key_ftp_en, inl (flag c.ftp_enabled))
      ∷ (key_tnfsd_en, inl (flag c.tnfsd_enabled))
      ∷ (key_fdctcp, inl c.fdc_tcp_port)
      ∷ (key_str cfg_str_wifi_ssid, inr (c.str cfg_str_wifi_ssid))
      ∷ (key_str cfg_str_wifi_pass, inr (c.str cfg_str_wifi_pass))
      ∷ (key_str cfg_str_wifi_name, inr (c.str cfg_str_wifi_name))
      ∷ (key_str cfg_str_time_zone, inr (c.str cfg_str_time_zone))
      ∷ (key_str cfg_str_ftp_user, inr (c.str cfg_str_ftp_user))
      ∷ (key_str cfg_str_ftp_pass, inr (c.str cfg_str_ftp_pass))
      ∷ (key_str cfg_str_ota_repo, inr (c.str cfg_str_ota_repo))
      ∷ (key_drive 0, inr (c.drive 0))
      ∷ (key_drive 1, inr (c.drive 1))
      ∷ (key_drive 2, inr (c.drive 2))
      ∷ (key_drive 3, inr (c.drive 3))
      ∷ []

  -- The end of `config_save` and of `config_wipe`, the namespace closed.
  unfoldable pub finish : Esp × N → Config → Store → Esp × Store × N
  finish (esp_ok, n) c s = (esp_ok, record s { cfg = c; dirty = false }, nvs.close n)
  finish (err, n) c s = (err, s, nvs.close n)

  unfoldable pub save_opened : Esp × N → Store → Esp × Store × N
  unfolding finish put_all entries
  save_opened (esp_ok, n) s = finish (put_all (entries s.cfg) n) s.cfg s
  save_opened (err, n) s = (err, s, n)

  unfoldable pub config_save : Store → N → Esp × Store × N
  unfolding save_opened
  config_save s n = save_opened (nvs.open_write n) s

  unfoldable pub wipe_opened : Esp × N → Store → Esp × Store × N
  unfolding finish and_then
  wipe_opened (esp_ok, n) s = finish (and_then (nvs.erase_all n) nvs.commit) set_defaults s
  wipe_opened (err_not_found, n) s = (esp_ok, record s { cfg = set_defaults; dirty = false }, n)
  wipe_opened (err, n) s = (err, s, n)

  unfoldable pub config_wipe : Store → N → Esp × Store × N
  unfolding wipe_opened
  config_wipe s n = wipe_opened (nvs.open_write n) s
