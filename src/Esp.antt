-- ===== src/Esp.antt =====
-- esp_err_t: the codes that the sources name, and `err_other` for what ESP-IDF may return besides.
use fdc_sds_pio.Prelude.{ℕ, Bool, true, false}

pub data Esp : Type 0 where
  esp_ok esp_fail err_no_mem err_invalid_arg err_invalid_state err_invalid_size : Esp
  err_not_found err_not_supported err_timeout : Esp
  err_other : ℕ → Esp

-- `err == ESP_OK`
abbrev pub is_ok : Esp → Bool
is_ok esp_ok = true
is_ok _ = false
