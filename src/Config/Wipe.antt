-- ===== src/Config/Wipe.antt =====
-- src/config/config.c: a start after a wipe.
use fdc_sds_pio.Prelude.{ap, false, none, true, ℕ, ◌∙◌, ◌≡◌}
use fdc_sds_pio.Esp.{Esp, esp_ok}
use fdc_sds_pio.Config.{
  Config, Key, Nvs, Store, and_then, config_file_cap, config_init, config_wipe, flag_or, key_baud,
  key_drive, key_fdctcp, key_ftp_en, key_loglvl, key_str, key_telneten, key_tnfsd_en, key_wifi_en,
  load_from_nvs, nvs_ok, or_else, set_defaults, str_cap, wipe_opened,
}
use fdc_sds_pio.Config.Stored.{NvsLaws, and_then-ok, finish-ok}
use fdc_sds_pio.Config.Reload.{flashed, opened, reads-num, reads-str}

module _ {N : Type 0} (nvs : Nvs N) (l : NvsLaws nvs) where
  -- A configuration over which an empty namespace is read stays as it is.
  load_nothing :
      (n : N) (c : Config)
      → ((j : Key) → nvs.get_num j n ≡ none)
      → ((j : Key) (cap : ℕ) → nvs.get_str j cap n ≡ none)
      → load_from_nvs nvs n c ≡ c
  unfolding load_from_nvs flag_or
  load_nothing n c num str = λ i. record {
    baud_rate = or_else (num key_baud i) c.baud_rate;
    log_level = or_else (num key_loglvl i) c.log_level;
    wifi_enabled = flag_or (num key_wifi_en i) c.wifi_enabled;
    telnet_enabled = flag_or (num key_telneten i) c.telnet_enabled;
    ftp_enabled = flag_or (num key_ftp_en i) c.ftp_enabled;
    tnfsd_enabled = flag_or (num key_tnfsd_en i) c.tnfsd_enabled;
    fdc_tcp_port = or_else (num key_fdctcp i) c.fdc_tcp_port;
    str = λ id. or_else (str (key_str id) (str_cap id) i) (c.str id);
    drive = λ d. or_else (str (key_drive d) config_file_cap i) (c.drive d);
  }

  -- What a wipe of an open namespace has done, if it reports success.
  wipe_opened-ok :
      (r : Esp × N) (s : Store)
      → r.0 ≡ esp_ok
      → (wipe_opened nvs r s).0 ≡ esp_ok
      → ((nvs.erase_all (r.1)).0 ≡ esp_ok)
        × (wipe_opened nvs r s ≡ (
          esp_ok,
          record s { cfg = set_defaults; dirty = false },
          nvs.close ((nvs.commit ((nvs.erase_all (r.1)).1)).1),
        ))
  unfolding wipe_opened
  wipe_opened-ok (esp_ok, n) s found h =
      let closed = finish-ok nvs l (and_then nvs (nvs.erase_all n) nvs.commit) set_defaults s h in
      let erased = and_then-ok nvs l (nvs.erase_all n) nvs.commit closed.0 in
      (
        erased.0,
        closed.1
            ∙ ap (λ r. (esp_ok, record s { cfg = set_defaults; dirty = false }, nvs.close (r.1)))
                erased.1,
      )
  wipe_opened-ok (_, n) s found h = absurd (cc)

  -- A wipe of an open namespace that reports success leaves the defaults with nothing unsaved, and
  -- so does the next start, where the flash comes up and the namespace opens.
  pub config_init-config_wipe :
      (s s0 : Store) (n : N)
      → (nvs.open_write n).0 ≡ esp_ok
      → (config_wipe nvs s n).0 ≡ esp_ok
      → (nvs.flash_init ((config_wipe nvs s n).2)).0 ≡ nvs_ok
      → (nvs.open_read ((nvs.flash_init ((config_wipe nvs s n).2)).1)).0 ≡ esp_ok
      → ((config_wipe nvs s n).1 ≡ record s { cfg = set_defaults; dirty = false })
        × ((config_init nvs s0 ((config_wipe nvs s n).2)).1
            ≡ record { cfg = set_defaults; dirty = false; loaded = true })
  unfolding config_wipe config_init
  config_init-config_wipe s s0 n write ok up found =
      let done = wipe_opened-ok (nvs.open_write n) s write ok in
      let m : N = (nvs.erase_all ((nvs.open_write n).1)).1 in
      let num : (j : Key) → nvs.get_num j ((config_wipe nvs s n).2) ≡ none = λ j.
        ap (λ r. nvs.get_num j (r.2)) done.1
        ∙ l.close-num j _
        ∙ l.commit-num j m
        ∙ l.erase_all-num j _ done.0 in
      let str : (j : Key) (cap : ℕ) → nvs.get_str j cap ((config_wipe nvs s n).2) ≡ none = λ j cap.
        ap (λ r. nvs.get_str j cap (r.2)) done.1
        ∙ l.close-str j cap _
        ∙ l.commit-str j cap m
        ∙ l.erase_all-str j cap _ done.0 in
      let start =
        flashed nvs l (nvs.flash_init ((config_wipe nvs s n).2)) (record s0 { cfg = set_defaults })
          up in
      (
        ap (λ r. r.1) done.1,
        ap (λ r. r.1) start
            ∙ opened nvs l _ _ found
            ∙ ap (λ c. record { cfg = c; dirty = false; loaded = true })
                (load_nothing _ set_defaults (λ j. reads-num nvs l j _ ∙ num j)
                  (λ j cap. reads-str nvs l j cap _ ∙ str j cap)),
      )
