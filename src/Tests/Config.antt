-- ===== src/Tests/Config.antt =====
-- Runs of the theorems on src/config/config.c, with a flash that keeps what is written.
use fdc_sds_pio.Prelude.{
  Bool, Bytes, Option, arith, false, if◌then◌else◌, length, none, refl, some, true, ℕ, ◌<◌, ◌≡◌,
}
use fdc_sds_pio.Esp.{Esp, esp_ok}
use fdc_sds_pio.Config.{
  Key, Nvs, Store, StrId, and_then, cfg_str_wifi_ssid, config_init, config_save, default_str,
  entries, finish, nvs_ok, put, put_all, save_opened, set_defaults, str_cap,
}
use fdc_sds_pio.Config.Stored.{NvsLaws, eq_key, fits}
use fdc_sds_pio.Config.Reload.{IsSame, config_init-config_save}
use fdc_sds_pio.Config.Setters.{IsConfig, apply, apply-IsConfig, baud}
use fdc_sds_pio.Config.Settings.{IsSetting, apply-IsSetting}

record Flash : Type 0 where
  num : Key → Option ℕ
  str : Key → Option Bytes

abbrev read_back : ℕ → Option Bytes → Option Bytes
read_back cap none = none
read_back cap (some v) = fits cap v

abbrev flash_nvs : Nvs Flash
flash_nvs = record {
  flash_init = λ n. (nvs_ok, n);
  flash_erase = λ n. record { num = λ k. none; str = λ k. none };
  open_read = λ n. (esp_ok, n);
  open_write = λ n. (esp_ok, n);
  close = λ n. n;
  get_num = λ k n. n.num k;
  get_str = λ k cap n. read_back cap (n.str k);
  set_num = λ k v n. (esp_ok, record n { num = λ j. if eq_key j k then some v else n.num j });
  set_str = λ k v n. (esp_ok, record n { str = λ j. if eq_key j k then some v else n.str j });
  commit = λ n. (esp_ok, n);
  erase_all = λ n. (esp_ok, record { num = λ k. none; str = λ k. none });
}

read_back_if :
    (b : Bool) (cap : ℕ) (v : Bytes) (o : Option Bytes)
    → read_back cap (if b then some v else o) ≡ (if b then fits cap v else read_back cap o)
read_back_if true cap v o = refl
read_back_if false cap v o = refl

flash_laws : NvsLaws flash_nvs
flash_laws = record {
  set_num-num = λ k j v n h. refl;
  set_num-str = λ k j v cap n h b. refl;
  set_str-num = λ k j v n h b. refl;
  set_str-str = λ k j v cap n h. read_back_if (eq_key j k) cap v (n.str j);
  erase_all-num = λ j n h. refl;
  erase_all-str = λ j cap n h. refl;
  commit-num = λ j n. refl;
  commit-str = λ j cap n. refl;
  close-num = λ j n. refl;
  close-str = λ j cap n. refl;
  flash_init-num = λ j n. refl;
  flash_init-str = λ j cap n. refl;
  open_read-num = λ j n. refl;
  open_read-str = λ j cap n. refl;
}

abbrev blank : Flash
blank = record { num = λ k. none; str = λ k. none }

-- The defaults, with another baud rate set, and before that.
abbrev started : Store
started = record { cfg = set_defaults; dirty = false; loaded = true }

abbrev edited : Store
edited = apply (baud 38400) started

started-IsConfig : IsConfig started.cfg
unfolding set_defaults default_str str_cap
started-IsConfig = record { str = λ id. short id; drive = λ n. omega arith }
  where
    short : (id : StrId) → length (default_str id) < str_cap id
    short cfg_str_wifi_ssid = omega arith
    short _ = omega arith

edited-IsConfig : IsConfig edited.cfg
edited-IsConfig = apply-IsConfig (baud 38400) started started-IsConfig

apply-IsSetting_example : IsSetting (baud 38400) started (apply (baud 38400) started)
apply-IsSetting_example = apply-IsSetting (baud 38400) started started-IsConfig

abbrev saved : Esp × Store × Flash
saved = config_save flash_nvs edited blank

save_ok : (config_save flash_nvs edited blank).0 ≡ esp_ok
unfolding config_save save_opened finish put_all put and_then entries
save_ok = refl

config_init-config_save_example :
    IsSame edited.cfg
      (((config_init flash_nvs started ((config_save flash_nvs edited blank).2)).1).cfg)
    × (((config_init flash_nvs started ((config_save flash_nvs edited blank).2)).1).dirty ≡ false)
config_init-config_save_example =
    config_init-config_save flash_nvs flash_laws edited started blank edited-IsConfig save_ok refl
      refl
