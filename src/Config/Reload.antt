-- ===== src/Config/Reload.antt =====
-- src/config/config.c: a start after a save.
use fdc_sds_pio.Prelude.{
  Bytes, Option, ap, arith, false, length, refl, suc, true, zero, ℕ, ◌<◌, ◌==◌, ◌∙◌, ◌≡◌,
}
use fdc_sds_pio.Esp.{Esp, esp_ok}
use fdc_sds_pio.Config.{
  Config, Key, Nvs, NvsInit, Store, StrId, cfg_str_ftp_pass, cfg_str_ftp_user, cfg_str_ota_repo,
  cfg_str_time_zone, cfg_str_wifi_name, cfg_str_wifi_pass, cfg_str_wifi_ssid, config_file_cap,
  config_init, config_max_drive, config_save, entries, flag_or, init_flash, init_opened, key_baud,
  key_drive, key_fdctcp, key_ftp_en, key_loglvl, key_str, key_telneten, key_tnfsd_en, key_wifi_en,
  load_from_nvs, nvs_ok, or_else, recover, set_defaults, str_cap,
}
use fdc_sds_pio.Config.Setters.{IsConfig}
use fdc_sds_pio.Config.Stored.{
  IsNum, IsStr, NvsLaws, fits, fits_whole, flag_or-flag, key_number, num_after, saved-num,
  saved-str, str_after,
}

module _ {N : Type 0} (nvs : Nvs N) (l : NvsLaws nvs) where
  pub opened :
      (r : Esp × N) (s : Store)
      → r.0 ≡ esp_ok
      → (init_opened nvs r s).1
        ≡ (record { cfg = load_from_nvs nvs (r.1) s.cfg; dirty = false; loaded = true })
  unfolding init_opened
  opened (esp_ok, n) s h = refl
  opened (_, n) s h = absurd (cc)

  pub flashed :
      (r : NvsInit × N) (s : Store)
      → r.0 ≡ nvs_ok
      → init_flash nvs (recover nvs r) s ≡ init_opened nvs (nvs.open_read (r.1)) s
  unfolding init_flash recover
  flashed (nvs_ok, n) s h = refl
  flashed (_, n) s h = absurd (cc)

-- Two configurations are the same, as far as the code uses them.
pub record IsSame (c c' : Config) : Type 0 where
  pub baud_rate : c'.baud_rate ≡ c.baud_rate
  pub log_level : c'.log_level ≡ c.log_level
  pub wifi_enabled : c'.wifi_enabled ≡ c.wifi_enabled
  pub telnet_enabled : c'.telnet_enabled ≡ c.telnet_enabled
  pub ftp_enabled : c'.ftp_enabled ≡ c.ftp_enabled
  pub tnfsd_enabled : c'.tnfsd_enabled ≡ c.tnfsd_enabled
  pub fdc_tcp_port : c'.fdc_tcp_port ≡ c.fdc_tcp_port
  pub str : (id : StrId) → c'.str id ≡ c.str id
  pub drive : (d : ℕ) → d < config_max_drive → c'.drive d ≡ c.drive d

module _ {N : Type 0} (nvs : Nvs N) (l : NvsLaws nvs) where
  -- What a start reads, once the flash is up and the namespace open.
  pub reads-num :
      (j : Key) (n : N) → nvs.get_num j ((nvs.open_read ((nvs.flash_init n).1)).1) ≡ nvs.get_num j n
  reads-num j n = l.open_read-num j _ ∙ l.flash_init-num j n

  pub reads-str :
      (j : Key) (cap : ℕ) (n : N)
      → nvs.get_str j cap ((nvs.open_read ((nvs.flash_init n).1)).1) ≡ nvs.get_str j cap n
  reads-str j cap n = l.open_read-str j cap _ ∙ l.flash_init-str j cap n

  -- A key above the seven numbers is of a string.
  apart : (a b : ℕ) → b < a → (a == b) ≡ false
  apart a b h = ground (arith, h)

  string_key : (j : Key) (c : Config) → 6 < key_number j → IsStr j (entries nvs c)
  unfolding entries IsStr
  string_key j c h =
      let low : (b : ℕ) → b < 7 → (key_number j == b) ≡ false =
        λ b k. apart (key_number j) b (omega (arith, h, k)) in
      (
        low 0 (omega arith),
        (
          low 1 (omega arith),
          (
            low 2 (omega arith),
            (
              low 3 (omega arith),
              (low 4 (omega arith), (low 5 (omega arith), (low 6 (omega arith), tt))),
            ),
          ),
        ),
      )

  -- A string that the writes leave, read into a buffer that it fits.
  saved_text :
      (cap : ℕ) (j : Key) (v : Bytes) (s : Store) (n : N) (d : Bytes)
      → 6 < key_number j
      → ((o : Option Bytes) → str_after cap j (entries nvs s.cfg) o ≡ fits cap v)
      → length v < cap
      → (config_save nvs s n).0 ≡ esp_ok
      → or_else (nvs.get_str j cap ((config_save nvs s n).2)) d ≡ v
  saved_text cap j v s n d k left h ok =
      ap (λ o. or_else o d) (saved-str nvs l cap j s n (string_key j s.cfg k) ok ∙ left _)
      ∙ fits_whole nvs l cap v d h

  number_key : (j : Key) (c : Config) → key_number j < 7 → IsNum j (entries nvs c)
  unfolding entries IsNum
  number_key j c h =
      let high : (b : ℕ) → 6 < b → (key_number j == b) ≡ false = λ b k. ground (arith, h, k) in
      (
        high 7 (omega arith),
        (
          high 8 (omega arith),
          (
            high 9 (omega arith),
            (
              high 10 (omega arith),
              (
                high 11 (omega arith),
                (
                  high 12 (omega arith),
                  (
                    high 13 (omega arith),
                    (
                      high 14 (omega arith),
                      (high 15 (omega arith), (high 16 (omega arith), (high 17 (omega arith), tt))),
                    ),
                  ),
                ),
              ),
            ),
          ),
        ),
      )

  saved_string :
      (id : StrId) (s : Store) (n : N) (d : Bytes)
      → IsConfig s.cfg
      → (config_save nvs s n).0 ≡ esp_ok
      → or_else (nvs.get_str (key_str id) (str_cap id) ((config_save nvs s n).2)) d ≡ s.cfg.str id
  unfolding entries str_after
  saved_string cfg_str_wifi_ssid s n d h ok =
      saved_text _ _ _ s n d (omega arith) (λ o. refl) (h.str cfg_str_wifi_ssid) ok
  saved_string cfg_str_wifi_pass s n d h ok =
      saved_text _ _ _ s n d (omega arith) (λ o. refl) (h.str cfg_str_wifi_pass) ok
  saved_string cfg_str_wifi_name s n d h ok =
      saved_text _ _ _ s n d (omega arith) (λ o. refl) (h.str cfg_str_wifi_name) ok
  saved_string cfg_str_time_zone s n d h ok =
      saved_text _ _ _ s n d (omega arith) (λ o. refl) (h.str cfg_str_time_zone) ok
  saved_string cfg_str_ftp_user s n d h ok =
      saved_text _ _ _ s n d (omega arith) (λ o. refl) (h.str cfg_str_ftp_user) ok
  saved_string cfg_str_ftp_pass s n d h ok =
      saved_text _ _ _ s n d (omega arith) (λ o. refl) (h.str cfg_str_ftp_pass) ok
  saved_string cfg_str_ota_repo s n d h ok =
      saved_text _ _ _ s n d (omega arith) (λ o. refl) (h.str cfg_str_ota_repo) ok

  saved_drive :
      (i : ℕ) (s : Store) (n : N) (d : Bytes)
      → IsConfig s.cfg
      → (config_save nvs s n).0 ≡ esp_ok
      → i < config_max_drive
      → or_else (nvs.get_str (key_drive i) config_file_cap ((config_save nvs s n).2)) d
        ≡ s.cfg.drive i
  unfolding entries str_after
  saved_drive zero s n d h ok b = saved_text _ _ _ s n d (omega arith) (λ o. refl) (h.drive _) ok
  saved_drive (suc zero) s n d h ok b =
      saved_text _ _ _ s n d (omega arith) (λ o. refl) (h.drive _) ok
  saved_drive (suc (suc zero)) s n d h ok b =
      saved_text _ _ _ s n d (omega arith) (λ o. refl) (h.drive _) ok
  saved_drive (suc (suc (suc zero))) s n d h ok b =
      saved_text _ _ _ s n d (omega arith) (λ o. refl) (h.drive _) ok
  saved_drive (suc (suc (suc (suc i)))) s n d h ok b = absurd (omega arith)

  saved_number :
      (j : Key) (s : Store) (n : N)
      → key_number j < 7
      → (config_save nvs s n).0 ≡ esp_ok
      → nvs.get_num j ((config_save nvs s n).2)
        ≡ num_after j (entries nvs s.cfg) (nvs.get_num j ((nvs.open_write n).1))
  saved_number j s n k ok = saved-num nvs l j s n (number_key j s.cfg k) ok

  -- The configuration that is read over the defaults.
  reloaded :
      (s : Store) (n : N) (c : Config)
      → IsConfig s.cfg
      → (config_save nvs s n).0 ≡ esp_ok
      → IsSame s.cfg
          (load_from_nvs nvs ((nvs.open_read ((nvs.flash_init ((config_save nvs s n).2)).1)).1) c)
  unfolding load_from_nvs num_after entries
  reloaded s n c h ok = record {
    baud_rate =
        ap (λ o. or_else o c.baud_rate)
          (reads-num key_baud _ ∙ saved_number key_baud s n (omega arith) ok);
    log_level =
        ap (λ o. or_else o c.log_level)
          (reads-num key_loglvl _ ∙ saved_number key_loglvl s n (omega arith) ok);
    wifi_enabled =
        ap (λ o. flag_or o c.wifi_enabled)
          (reads-num key_wifi_en _ ∙ saved_number key_wifi_en s n (omega arith) ok)
        ∙ flag_or-flag nvs l s.cfg.wifi_enabled _;
    telnet_enabled =
        ap (λ o. flag_or o c.telnet_enabled)
          (reads-num key_telneten _ ∙ saved_number key_telneten s n (omega arith) ok)
        ∙ flag_or-flag nvs l s.cfg.telnet_enabled _;
    ftp_enabled =
        ap (λ o. flag_or o c.ftp_enabled)
          (reads-num key_ftp_en _ ∙ saved_number key_ftp_en s n (omega arith) ok)
        ∙ flag_or-flag nvs l s.cfg.ftp_enabled _;
    tnfsd_enabled =
        ap (λ o. flag_or o c.tnfsd_enabled)
          (reads-num key_tnfsd_en _ ∙ saved_number key_tnfsd_en s n (omega arith) ok)
        ∙ flag_or-flag nvs l s.cfg.tnfsd_enabled _;
    fdc_tcp_port =
        ap (λ o. or_else o c.fdc_tcp_port)
          (reads-num key_fdctcp _ ∙ saved_number key_fdctcp s n (omega arith) ok);
    str = λ id.
        ap (λ o. or_else o (c.str id)) (reads-str (key_str id) (str_cap id) _)
        ∙ saved_string id s n _ h ok;
    drive = λ d b.
        ap (λ o. or_else o (c.drive d)) (reads-str (key_drive d) config_file_cap _)
        ∙ saved_drive d s n _ h ok b;
  }

  -- Where the flash comes up and the namespace opens, a start after a save that has reported success
  -- has the configuration that was saved, whatever the variables were before it, if the strings of
  -- the saved one fit their buffers; and there is nothing unsaved.
  pub config_init-config_save :
      (s s0 : Store) (n : N)
      → IsConfig s.cfg
      → (config_save nvs s n).0 ≡ esp_ok
      → (nvs.flash_init ((config_save nvs s n).2)).0 ≡ nvs_ok
      → (nvs.open_read ((nvs.flash_init ((config_save nvs s n).2)).1)).0 ≡ esp_ok
      → IsSame s.cfg (((config_init nvs s0 ((config_save nvs s n).2)).1).cfg)
        × (((config_init nvs s0 ((config_save nvs s n).2)).1).dirty ≡ false)
  unfolding config_init
  config_init-config_save s s0 n h ok up found =
      let same =
        flashed nvs l (nvs.flash_init ((config_save nvs s n).2)) (record s0 { cfg = set_defaults })
          up in
      rw (ap (λ r. r.1) same ∙ opened nvs l _ _ found) (reloaded s n set_defaults h ok, refl)
