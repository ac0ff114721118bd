-- ===== src/Config/Settings.antt =====
-- src/config/config.c: what the setters write, and the flag of unsaved changes.
use mathlib.Core.Path.{fun_ext}
use fdc_sds_pio.Prelude.{
  ==_iff, Bool, Bool-cases, Bytes, Option, ap, arith, eq_bytes_iff, false, if◌then◌else◌, inl, inr,
  leb, length, ltb, negsuc, pos, refl, strlcpy, sym, take, true, ℕ, ◌-◌, ◌<◌, ◌==◌, ◌↔◌, ◌∙◌, ◌≡◌,
  ◌≢◌, ◌⊎◌,
}
use fdc_sds_pio.Prelude.{
  ==_iff, Bool, Bool-cases, Bytes, Option, ap, arith, eq_bytes_iff, false, if◌then◌else◌, inl, inr,
  leb, length, ltb, negsuc, pos, refl, strlcpy, sym, take, true, ℕ, ◌-◌, ◌<◌, ◌==◌, ◌↔◌, ◌∙◌, ◌≡◌,
  ◌≢◌, ◌⊎◌,
}
use fdc_sds_pio.Config.{Config, Store, StrId, config_file_cap, config_max_drive, put, str_cap}
use fdc_sds_pio.Config.Change.{
  config_set_baud, config_set_drive, config_set_fdc_tcp_port, config_set_ftp_enabled,
  config_set_log_level, config_set_str, config_set_telnet_enabled, config_set_tnfsd_enabled,
  config_set_wifi_enabled, eq_bool, eq_id, same_text, set_unless, text,
}
use fdc_sds_pio.Config.{Config, Store, StrId, config_file_cap, config_max_drive, put, str_cap}
use fdc_sds_pio.Config.Setters.{
  IsConfig, Setter, apply, assigned, baud, drive, eq_id_iff, fdc_tcp_port, ftp, log_level,
  stored_text, string, take_short, telnet, tnfsd, wifi,
}

-- The value of a string fits the buffer of its field.
abbrev pub FitsField : Setter → Type 0
FitsField (string id val) = length (text val) < str_cap id
FitsField (drive n val) = length (text val) < config_file_cap
FitsField _ = Unit {0}

-- What holds of a store after a setter: the field has the value and no other field has changed;
-- nothing at all has changed or the flag of unsaved changes is up; and where the field had the value
-- before, a string one that fits, nothing has changed.
pub record IsSetting (x : Setter) (s s' : Store) : Type 0 where
  pub set : s'.cfg ≡ assigned x s.cfg
  pub outcome : (s' ≡ s) ⊎ (s'.dirty ≡ true)
  pub quiet : FitsField x → assigned x s.cfg ≡ s.cfg → s' ≡ s
  pub loaded : s'.loaded ≡ s.loaded

-- A setter whose test is whether the field has the value already.
set_or_not :
    (b : Bool) (x : Setter) (c : Config) (s : Store)
    → c ≡ assigned x s.cfg
    → (b ≡ true → c ≡ s.cfg)
    → (b ≡ false → FitsField x → c ≢ s.cfg)
    → IsSetting x s (set_unless b c s)
unfolding set_unless
set_or_not true x c s k same apart = record {
  set = sym (same refl) ∙ k;
  outcome = inl refl;
  quiet = λ f e. refl;
  loaded = refl;
}
set_or_not false x c s k same apart = record {
  set = k;
  outcome = inr refl;
  quiet = λ f e. absurd (apart refl f (k ∙ e));
  loaded = refl;
}

eq_bool_iff : (a b : Bool) → (eq_bool a b ≡ true) ↔ (a ≡ b)
unfolding eq_bool
eq_bool_iff true true = ground arith
eq_bool_iff true false = ground arith
eq_bool_iff false true = ground arith
eq_bool_iff false false = ground arith

-- A field of another type than a string: `put` writes it and `read` reads it.
field-IsSetting :
    {A : Type 0} (test : A → A → Bool) (read : Config → A) (put : A → Config → Config) (v : A)
    (x : Setter) (s : Store)
    → ((a b : A) → (test a b ≡ true) ↔ (a ≡ b))
    → ((c : Config) → put (read c) c ≡ c)
    → ((a : A) (c : Config) → read (put a c) ≡ a)
    → put v s.cfg ≡ assigned x s.cfg
    → IsSetting x s (set_unless (test (read s.cfg) v) (put v s.cfg) s)
field-IsSetting test read put v x s iff same back k =
    set_or_not (test (read s.cfg) v) x (put v s.cfg) s k
      (λ h. ap (λ a. put a s.cfg) (sym ((iff (read s.cfg) v).0 h)) ∙ same s.cfg)
      (λ h f e. absurd (cc (h, (iff (read s.cfg) v).1 (sym (ap read e) ∙ back v s.cfg))))

-- A text that fits and is stored is found to be the same.
same_stored :
    (cap : ℕ) (dst val : Bytes)
    → length val < cap
    → strlcpy cap val ≡ dst
    → same_text cap dst val ≡ true
unfolding same_text
same_stored cap dst val short h =
    let whole : take (cap - 1) val ≡ val = take_short (cap - 1) val (omega (arith, short)) in
    let all : take cap val ≡ val = take_short cap val (omega (arith, short)) in
    (eq_bytes_iff dst (take cap val)).1 (sym h ∙ whole ∙ sym all)

string-IsSetting :
    (id : StrId) (val : Option Bytes) (s : Store)
    → IsConfig s.cfg
    → IsSetting (string id val) s (config_set_str id val s)
unfolding config_set_str
string-IsSetting id val s c =
    set_or_not (same_text (str_cap id) (s.cfg.str id) (text val)) (string id val)
      (assigned (string id val) s.cfg) s refl
      (λ h.
        ap (λ (f : StrId → Bytes). record s.cfg { str = f })
          (fun_ext λ i. elim (Bool-cases (eq_id i id)) [
            | inr apart ↦ rw apart refl
            | inl this ↦
                rw (this, (eq_id_iff i id).0 this)
                  (sym (stored_text (str_cap id) (s.cfg.str id) (text val) (c.str id) h))
          ]))
      (λ h f e.
        let here : (if eq_id id id then strlcpy (str_cap id) (text val) else s.cfg.str id)
            ≡ s.cfg.str id =
          ap (λ (d : Config). d.str id) e in
        let self : eq_id id id ≡ true = (eq_id_iff id id).1 refl in
        absurd (cc (h, same_stored (str_cap id) (s.cfg.str id) (text val) f (rw self at here))))

drive-IsSetting :
    (n : ℕ) (val : Option Bytes) (s : Store)
    → IsConfig s.cfg
    → ltb n config_max_drive ≡ true
    → IsSetting (drive (pos n) val) s (config_set_drive (pos n) val s)
unfolding config_set_drive
drive-IsSetting n val s c below =
    let inside : leb config_max_drive n ≡ false = ground (arith, below) in
    let self : (n == n) ≡ true = ground arith in
    rw inside (
      set_or_not (same_text config_file_cap (s.cfg.drive n) (text val)) (drive (pos n) val)
        (record s.cfg {
          drive = λ i. if i == n then strlcpy config_file_cap (text val) else s.cfg.drive i;
        })
        s (rw below refl)
        (λ h.
          ap (λ (f : ℕ → Bytes). record s.cfg { drive = f })
            (fun_ext λ i. elim (Bool-cases (i == n)) [
              | inr apart ↦ rw apart refl
              | inl this ↦
                  rw (this, (==_iff i n).0 this)
                    (sym (stored_text config_file_cap (s.cfg.drive n) (text val) (c.drive n) h))
            ]))
        (λ h f e.
          let here : (if n == n then strlcpy config_file_cap (text val) else s.cfg.drive n)
              ≡ s.cfg.drive n =
            ap (λ (d : Config). d.drive n) e in
          absurd
            (cc (h, same_stored config_file_cap (s.cfg.drive n) (text val) f (rw self at here)))))

drive_out :
    (n : ℕ) (val : Option Bytes) (s : Store)
    → ltb n config_max_drive ≡ false
    → IsSetting (drive (pos n) val) s (config_set_drive (pos n) val s)
unfolding config_set_drive set_unless
drive_out n val s above =
    let outside : leb config_max_drive n ≡ true = ground (arith, above) in
    rw outside
      (record { set = rw above refl; outcome = inl refl; quiet = λ f e. refl; loaded = refl })

-- A setter, whatever its argument, where the strings fitted their buffers before: the field that it
-- is named for has the value, cut to the buffer, and no other field has changed; nothing has changed
-- or the flag of unsaved changes is up; and a value that the field has already, if it fits, changes
-- nothing, the flag included.
pub apply-IsSetting : (x : Setter) (s : Store) → IsConfig s.cfg → IsSetting x s (apply x s)
unfolding apply config_set_baud config_set_log_level config_set_fdc_tcp_port config_set_wifi_enabled
    config_set_telnet_enabled config_set_ftp_enabled config_set_tnfsd_enabled config_set_drive
apply-IsSetting (baud n) s c =
    field-IsSetting ◌==◌ (λ d. d.baud_rate) (λ v d. record d { baud_rate = v }) n (baud n) s ==_iff
      (λ d. refl) (λ a d. refl) refl
apply-IsSetting (log_level n) s c =
    field-IsSetting ◌==◌ (λ d. d.log_level) (λ v d. record d { log_level = v }) n (log_level n) s
      ==_iff (λ d. refl) (λ a d. refl) refl
apply-IsSetting (fdc_tcp_port n) s c =
    field-IsSetting ◌==◌ (λ d. d.fdc_tcp_port) (λ v d. record d { fdc_tcp_port = v }) n
      (fdc_tcp_port n) s ==_iff (λ d. refl) (λ a d. refl) refl
apply-IsSetting (wifi b) s c =
    field-IsSetting eq_bool (λ d. d.wifi_enabled) (λ v d. record d { wifi_enabled = v }) b (wifi b)
      s eq_bool_iff (λ d. refl) (λ a d. refl) refl
apply-IsSetting (telnet b) s c =
    field-IsSetting eq_bool (λ d. d.telnet_enabled) (λ v d. record d { telnet_enabled = v }) b
      (telnet b) s eq_bool_iff (λ d. refl) (λ a d. refl) refl
apply-IsSetting (ftp b) s c =
    field-IsSetting eq_bool (λ d. d.ftp_enabled) (λ v d. record d { ftp_enabled = v }) b (ftp b) s
      eq_bool_iff (λ d. refl) (λ a d. refl) refl
apply-IsSetting (tnfsd b) s c =
    field-IsSetting eq_bool (λ d. d.tnfsd_enabled) (λ v d. record d { tnfsd_enabled = v }) b
      (tnfsd b) s eq_bool_iff (λ d. refl) (λ a d. refl) refl
apply-IsSetting (string id val) s c = string-IsSetting id val s c
apply-IsSetting (drive (pos n) val) s c = elim (Bool-cases (ltb n config_max_drive)) [
  | inl below ↦ drive-IsSetting n val s c below
  | inr above ↦ drive_out n val s above
]
apply-IsSetting (drive (negsuc n) val) s c = record {
  set = refl;
  outcome = inl refl;
  quiet = λ f e. refl;
  loaded = refl;
}
