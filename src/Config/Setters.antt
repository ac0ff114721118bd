-- ===== src/Config/Setters.antt =====
-- src/config/config.c: the setters as one type, and the capacities of the strings.
use fdc_sds_pio.Prelude.{
  ==_iff, Bool, Bool-cases, Bytes, Option, [], ap, arith, eq_bytes_iff, false, if◌then◌else◌, inl,
  inr, length, length-take, ltb, negsuc, pos, refl, strlcpy, suc, sym, take, true, zero, ℕ, ℤ, ◌-◌,
  ◌<◌, ◌==◌, ◌↔◌, ◌∙◌, ◌∷◌, ◌≡◌, ◌≤◌,
}
use fdc_sds_pio.Prelude.{
  ==_iff, Bool, Bool-cases, Bytes, Option, [], ap, arith, eq_bytes_iff, false, if◌then◌else◌, inl,
  inr, length, length-take, ltb, negsuc, pos, refl, strlcpy, suc, sym, take, true, zero, ℕ, ℤ, ◌-◌,
  ◌<◌, ◌==◌, ◌↔◌, ◌∙◌, ◌∷◌, ◌≡◌, ◌≤◌,
}
use fdc_sds_pio.Config.{
  Config, Store, StrId, cfg_str_ftp_pass, cfg_str_ftp_user, cfg_str_ota_repo, cfg_str_time_zone,
  cfg_str_wifi_name, cfg_str_wifi_pass, cfg_str_wifi_ssid, config_file_cap, config_max_drive,
  str_cap,
}
use fdc_sds_pio.Config.Change.{
  config_set_baud, config_set_drive, config_set_fdc_tcp_port, config_set_ftp_enabled,
  config_set_log_level, config_set_str, config_set_telnet_enabled, config_set_tnfsd_enabled,
  config_set_wifi_enabled, eq_id, id_number, same_text, set_unless, text,
}
use fdc_sds_pio.Config.{
  Config, Store, StrId, cfg_str_ftp_pass, cfg_str_ftp_user, cfg_str_ota_repo, cfg_str_time_zone,
  cfg_str_wifi_name, cfg_str_wifi_pass, cfg_str_wifi_ssid, config_file_cap, config_max_drive,
  str_cap,
}

-- Every string fits its buffer, with its terminator.
pub record IsConfig (c : Config) : Type 0 where
  pub str : (id : StrId) → length (c.str id) < str_cap id
  pub drive : (n : ℕ) → length (c.drive n) < config_file_cap

-- The setters, as one type.
pub data Setter : Type 0 where
  baud log_level fdc_tcp_port : ℕ → Setter
  wifi telnet ftp tnfsd : Bool → Setter
  string : StrId → Option Bytes → Setter
  drive : ℤ → Option Bytes → Setter

unfoldable pub apply : Setter → Store → Store
apply (baud n) = config_set_baud n
apply (log_level n) = config_set_log_level n
apply (fdc_tcp_port n) = config_set_fdc_tcp_port n
apply (wifi b) = config_set_wifi_enabled b
apply (telnet b) = config_set_telnet_enabled b
apply (ftp b) = config_set_ftp_enabled b
apply (tnfsd b) = config_set_tnfsd_enabled b
apply (string id val) = config_set_str id val
apply (drive n val) = config_set_drive n val

length-take_lt : (cap : ℕ) (bytes : Bytes) → 0 < cap → length (take (cap - 1) bytes) < cap
length-take_lt cap bytes h = omega (arith, length-take (cap - 1) bytes)

str_cap-pos : (id : StrId) → 0 < str_cap id
unfolding str_cap
str_cap-pos cfg_str_wifi_ssid = omega arith
str_cap-pos cfg_str_wifi_pass = omega arith
str_cap-pos cfg_str_wifi_name = omega arith
str_cap-pos cfg_str_time_zone = omega arith
str_cap-pos cfg_str_ftp_user = omega arith
str_cap-pos cfg_str_ftp_pass = omega arith
str_cap-pos cfg_str_ota_repo = omega arith

with_number : ℕ → StrId
with_number n =
    if n == 0
    then cfg_str_wifi_ssid
    else if n == 1
    then cfg_str_wifi_pass
    else if n == 2
    then cfg_str_wifi_name
    else if n == 3
    then cfg_str_time_zone
    else if n == 4
    then cfg_str_ftp_user
    else if n == 5
    then cfg_str_ftp_pass
    else cfg_str_ota_repo

with_number-id_number : (i : StrId) → with_number (id_number i) ≡ i
unfolding with_number id_number
with_number-id_number cfg_str_wifi_ssid = refl
with_number-id_number cfg_str_wifi_pass = refl
with_number-id_number cfg_str_wifi_name = refl
with_number-id_number cfg_str_time_zone = refl
with_number-id_number cfg_str_ftp_user = refl
with_number-id_number cfg_str_ftp_pass = refl
with_number-id_number cfg_str_ota_repo = refl

pub eq_id_iff : (i j : StrId) → (eq_id i j ≡ true) ↔ (i ≡ j)
unfolding eq_id
eq_id_iff i j = (
  λ h. sym (with_number-id_number i) ∙ ap with_number ((==_iff _ _).0 h) ∙ with_number-id_number j,
  λ e. (==_iff _ _).1 (ap id_number e),
)

-- The configuration in which the field that a setter is named for has the given value, a string cut
-- to its buffer, and the rest is as it was. A drive number out of range names no field.
abbrev pub assigned : Setter → Config → Config
assigned (baud n) c = record c { baud_rate = n }
assigned (log_level n) c = record c { log_level = n }
assigned (fdc_tcp_port n) c = record c { fdc_tcp_port = n }
assigned (wifi b) c = record c { wifi_enabled = b }
assigned (telnet b) c = record c { telnet_enabled = b }
assigned (ftp b) c = record c { ftp_enabled = b }
assigned (tnfsd b) c = record c { tnfsd_enabled = b }
assigned (string id val) c = record c {
  str = λ i. if eq_id i id then strlcpy (str_cap id) (text val) else c.str i;
}
assigned (drive (negsuc n) val) c = c
assigned (drive (pos n) val) c =
    if ltb n config_max_drive
    then record c { drive = λ i. if i == n then strlcpy config_file_cap (text val) else c.drive i }
    else c

pub take_short : (n : ℕ) (bytes : Bytes) → length bytes ≤ n → take n bytes ≡ bytes
take_short zero [] h = refl
take_short zero (b ∷ bytes) h = absurd (omega (arith, h))
take_short (suc n) [] h = refl
take_short (suc n) (b ∷ bytes) h = ap (◌∷◌ b) (take_short n bytes (omega (arith, h)))

-- The text that a string setter leaves: a value that differs is stored, cut to the capacity, and a
-- value that does not is the stored one already.
pub stored_text :
    (cap : ℕ) (dst val : Bytes)
    → length dst < cap
    → same_text cap dst val ≡ true
    → dst ≡ strlcpy cap val
unfolding same_text
stored_text cap dst val h same =
    let e : dst ≡ take cap val = (eq_bytes_iff dst (take cap val)).0 same in
    let short : length val < cap = omega (arith, h, length-take cap val, ap length e) in
    e
    ∙ take_short cap val (omega (arith, short))
    ∙ sym (take_short (cap - 1) val (omega (arith, short)))

config_or_not :
    (b : Bool) (c : Config) (s : Store)
    → IsConfig s.cfg
    → IsConfig c
    → IsConfig ((set_unless b c s).cfg)
unfolding set_unless
config_or_not true c s h k = h
config_or_not false c s h k = k

str-IsConfig :
    (id : StrId) (val : Bytes) (s : Store)
    → IsConfig s.cfg
    → (i : StrId)
    → length (if eq_id i id then strlcpy (str_cap id) val else s.cfg.str i) < str_cap i
str-IsConfig id val s h i = elim (Bool-cases (eq_id i id)) [
  | inl same ↦ rw (same, (eq_id_iff i id).0 same) (length-take_lt (str_cap id) val (str_cap-pos id))
  | inr apart ↦ rw apart (h.str i)
]

drive-IsConfig :
    (n : ℕ) (val : Bytes) (s : Store)
    → IsConfig s.cfg
    → (i : ℕ)
    → length (if i == n then strlcpy config_file_cap val else s.cfg.drive i) < config_file_cap
drive-IsConfig n val s h i = elim (Bool-cases (i == n)) [
  | inl same ↦ rw same (length-take_lt config_file_cap val (omega arith))
  | inr apart ↦ rw apart (h.drive i)
]

-- A setter, whatever its argument, keeps every string shorter than its buffer.
pub apply-IsConfig : (x : Setter) (s : Store) → IsConfig s.cfg → IsConfig ((apply x s).cfg)
unfolding apply config_set_baud config_set_log_level config_set_fdc_tcp_port config_set_wifi_enabled
    config_set_telnet_enabled config_set_ftp_enabled config_set_tnfsd_enabled config_set_str
    config_set_drive
apply-IsConfig (baud n) s h = config_or_not _ _ s h (record { str = h.str; drive = h.drive })
apply-IsConfig (log_level n) s h = config_or_not _ _ s h (record { str = h.str; drive = h.drive })
apply-IsConfig (fdc_tcp_port n) s h =
    config_or_not _ _ s h (record { str = h.str; drive = h.drive })
apply-IsConfig (wifi b) s h = config_or_not _ _ s h (record { str = h.str; drive = h.drive })
apply-IsConfig (telnet b) s h = config_or_not _ _ s h (record { str = h.str; drive = h.drive })
apply-IsConfig (ftp b) s h = config_or_not _ _ s h (record { str = h.str; drive = h.drive })
apply-IsConfig (tnfsd b) s h = config_or_not _ _ s h (record { str = h.str; drive = h.drive })
apply-IsConfig (string id val) s h =
    config_or_not _ _ s h (record { str = str-IsConfig id _ s h; drive = h.drive })
apply-IsConfig (drive (pos n) val) s h =
    config_or_not _ _ s h (record { str = h.str; drive = drive-IsConfig n _ s h })
apply-IsConfig (drive (negsuc n) val) s h = h

-- After a string setter the field holds the value cut to its capacity, and the other fields hold what
-- they held, where the strings fitted their buffers before.
pub config_set_str_lem :
    (id i : StrId) (val : Option Bytes) (s : Store)
    → IsConfig s.cfg
    → ((config_set_str id val s).cfg).str i
      ≡ (if eq_id i id then strlcpy (str_cap id) (text val) else s.cfg.str i)
unfolding config_set_str set_unless
config_set_str_lem id i val s h =
    elim (Bool-cases (same_text (str_cap id) (s.cfg.str id) (text val))) [
      | inr new ↦ rw new refl
      | inl same ↦ rw same (elim (Bool-cases (eq_id i id)) [
        | inl this ↦
            rw (this, (eq_id_iff i id).0 this)
              (stored_text (str_cap id) (s.cfg.str id) (text val) (h.str id) same)
        | inr apart ↦ rw apart refl
      ])
    ]
