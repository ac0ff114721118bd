-- ===== src/Config/Stored.antt =====
-- The flash copy of src/config/config.c: what a start reads back after a save.
use fdc_sds_pio.Prelude.{
  Bool, Bytes, List, Option, [], ap, arith, false, if◌then◌else◌, inl, inr, length, ltb, none, refl,
  some, sym, true, ℕ, ◌+◌, ◌<◌, ◌==◌, ◌∙◌, ◌∷◌, ◌≡◌, ◌⊎◌,
}
use fdc_sds_pio.Esp.{Esp, esp_ok}
use fdc_sds_pio.Config.{
  Config, Key, Nvs, Store, and_then, cfg_str_ftp_pass, cfg_str_ftp_user, cfg_str_ota_repo,
  cfg_str_time_zone, cfg_str_wifi_name, cfg_str_wifi_pass, cfg_str_wifi_ssid, config_save, entries,
  finish, flag, flag_or, key_baud, key_drive, key_fdctcp, key_ftp_en, key_loglvl, key_str,
  key_telneten, key_tnfsd_en, key_wifi_en, or_else, put, put_all, save_opened,
}

-- Keys by their numbers.
abbrev pub key_number : Key → ℕ
key_number key_baud = 0
key_number key_loglvl = 1
key_number key_wifi_en = 2
key_number key_telneten = 3
key_number key_ftp_en = 4
key_number key_tnfsd_en = 5
key_number key_fdctcp = 6
key_number (key_str cfg_str_wifi_ssid) = 7
key_number (key_str cfg_str_wifi_pass) = 8
key_number (key_str cfg_str_wifi_name) = 9
key_number (key_str cfg_str_time_zone) = 10
key_number (key_str cfg_str_ftp_user) = 11
key_number (key_str cfg_str_ftp_pass) = 12
key_number (key_str cfg_str_ota_repo) = 13
key_number (key_drive n) = 14 + n

abbrev pub eq_key : Key → Key → Bool
eq_key a b = key_number a == key_number b

-- A string read into a buffer.
abbrev pub fits : ℕ → Bytes → Option Bytes
fits cap v = if ltb (length v) cap then some v else none

-- What the NVS library documents: a write that succeeds is what is read, and leaves the other keys, and
-- an erase leaves none.
pub record NvsLaws {N : Type 0} (nvs : Nvs N) : Type 0 where
  pub set_num-num :
      (k j : Key) (v : ℕ) (n : N)
      → (nvs.set_num k v n).0 ≡ esp_ok
      → nvs.get_num j ((nvs.set_num k v n).1) ≡ (if eq_key j k then some v else nvs.get_num j n)
  pub set_num-str :
      (k j : Key) (v cap : ℕ) (n : N)
      → (nvs.set_num k v n).0 ≡ esp_ok
      → eq_key j k ≡ false
      → nvs.get_str j cap ((nvs.set_num k v n).1) ≡ nvs.get_str j cap n
  pub set_str-num :
      (k j : Key) (v : Bytes) (n : N)
      → (nvs.set_str k v n).0 ≡ esp_ok
      → eq_key j k ≡ false
      → nvs.get_num j ((nvs.set_str k v n).1) ≡ nvs.get_num j n
  pub set_str-str :
      (k j : Key) (v : Bytes) (cap : ℕ) (n : N)
      → (nvs.set_str k v n).0 ≡ esp_ok
      → nvs.get_str j cap ((nvs.set_str k v n).1)
        ≡ (if eq_key j k then fits cap v else nvs.get_str j cap n)
  pub erase_all-num :
      (j : Key) (n : N) → (nvs.erase_all n).0 ≡ esp_ok → nvs.get_num j (nvs.erase_all n).1 ≡ none
  pub erase_all-str :
      (j : Key) (cap : ℕ) (n : N)
      → (nvs.erase_all n).0 ≡ esp_ok
      → nvs.get_str j cap (nvs.erase_all n).1 ≡ none
  pub commit-num : (j : Key) (n : N) → nvs.get_num j ((nvs.commit n).1) ≡ nvs.get_num j n
  pub commit-str :
      (j : Key) (cap : ℕ) (n : N) → nvs.get_str j cap ((nvs.commit n).1) ≡ nvs.get_str j cap n
  pub close-num : (j : Key) (n : N) → nvs.get_num j (nvs.close n) ≡ nvs.get_num j n
  pub close-str :
      (j : Key) (cap : ℕ) (n : N) → nvs.get_str j cap (nvs.close n) ≡ nvs.get_str j cap n
  pub flash_init-num : (j : Key) (n : N) → nvs.get_num j ((nvs.flash_init n).1) ≡ nvs.get_num j n
  pub flash_init-str :
      (j : Key) (cap : ℕ) (n : N) → nvs.get_str j cap ((nvs.flash_init n).1) ≡ nvs.get_str j cap n
  pub open_read-num : (j : Key) (n : N) → nvs.get_num j ((nvs.open_read n).1) ≡ nvs.get_num j n
  pub open_read-str :
      (j : Key) (cap : ℕ) (n : N) → nvs.get_str j cap ((nvs.open_read n).1) ≡ nvs.get_str j cap n

abbrev pub Writes : Type 0
Writes = List (Key × (ℕ ⊎ Bytes))

-- The number and the string that a sequence of writes leaves under a key.
unfoldable pub num_after : Key → Writes → Option ℕ → Option ℕ
num_after j [] o = o
num_after j ((k, inl v) ∷ xs) o = num_after j xs (if eq_key j k then some v else o)
num_after j ((k, inr v) ∷ xs) o = num_after j xs o

unfoldable pub str_after : ℕ → Key → Writes → Option Bytes → Option Bytes
str_after cap j [] o = o
str_after cap j ((k, inl v) ∷ xs) o = str_after cap j xs o
str_after cap j ((k, inr v) ∷ xs) o = str_after cap j xs (if eq_key j k then fits cap v else o)

-- The key is of no string, of no number among the writes.
unfoldable pub IsNum : Key → Writes → Type 0
IsNum j [] = Unit {0}
IsNum j ((k, inl v) ∷ xs) = IsNum j xs
IsNum j ((k, inr v) ∷ xs) = (eq_key j k ≡ false) × IsNum j xs

unfoldable pub IsStr : Key → Writes → Type 0
IsStr j [] = Unit {0}
IsStr j ((k, inl v) ∷ xs) = (eq_key j k ≡ false) × IsStr j xs
IsStr j ((k, inr v) ∷ xs) = IsStr j xs

module _ {N : Type 0} (nvs : Nvs N) (l : NvsLaws nvs) where
  -- `and_then` succeeds only behind a success.
  pub and_then-ok :
      (r : Esp × N) (next : N → Esp × N)
      → (and_then nvs r next).0 ≡ esp_ok
      → (r.0 ≡ esp_ok) × (and_then nvs r next ≡ next (r.1))
  unfolding and_then
  and_then-ok (esp_ok, n) next h = (refl, refl)
  and_then-ok (_, n) next h = absurd (cc)

  pub finish-ok :
      (r : Esp × N) (c : Config) (s : Store)
      → (finish nvs r c s).0 ≡ esp_ok
      → (r.0 ≡ esp_ok)
        × (finish nvs r c s ≡ (esp_ok, record s { cfg = c; dirty = false }, nvs.close (r.1)))
  unfolding finish
  finish-ok (esp_ok, n) c s h = (refl, refl)
  finish-ok (_, n) c s h = absurd (cc)

  -- What a save that reports success has done.
  save_opened-ok :
      (r : Esp × N) (s : Store)
      → (save_opened nvs r s).0 ≡ esp_ok
      → ((put_all nvs (entries nvs s.cfg) (r.1)).0 ≡ esp_ok)
        × (save_opened nvs r s ≡ (
          esp_ok,
          record s { dirty = false },
          nvs.close ((put_all nvs (entries nvs s.cfg) (r.1)).1),
        ))
  unfolding save_opened
  save_opened-ok (esp_ok, n) s h = finish-ok (put_all nvs (entries nvs s.cfg) n) s.cfg s h
  save_opened-ok (_, n) s h = absurd (cc)

  put_all-num :
      (j : Key) (xs : Writes) (n : N)
      → IsNum j xs
      → (put_all nvs xs n).0 ≡ esp_ok
      → nvs.get_num j ((put_all nvs xs n).1) ≡ num_after j xs (nvs.get_num j n)
  unfolding put_all put num_after IsNum
  put_all-num j [] n b h = l.commit-num j n
  put_all-num j ((k, inl v) ∷ xs) n b h =
      let facts = and_then-ok (nvs.set_num k v n) (put_all nvs xs) h in
      rw (facts.1, ← l.set_num-num k j v n facts.0)
        (put_all-num j xs ((nvs.set_num k v n).1) b (sym (ap (λ r. r.0) facts.1) ∙ h))
  put_all-num j ((k, inr v) ∷ xs) n b h =
      let facts = and_then-ok (nvs.set_str k v n) (put_all nvs xs) h in
      rw (facts.1, ← l.set_str-num k j v n facts.0 b.0)
        (put_all-num j xs ((nvs.set_str k v n).1) b.1 (sym (ap (λ r. r.0) facts.1) ∙ h))

  put_all-str :
      (cap : ℕ) (j : Key) (xs : Writes) (n : N)
      → IsStr j xs
      → (put_all nvs xs n).0 ≡ esp_ok
      → nvs.get_str j cap ((put_all nvs xs n).1) ≡ str_after cap j xs (nvs.get_str j cap n)
  unfolding put_all put str_after IsStr
  put_all-str cap j [] n b h = l.commit-str j cap n
  put_all-str cap j ((k, inl v) ∷ xs) n b h =
      let facts = and_then-ok (nvs.set_num k v n) (put_all nvs xs) h in
      rw (facts.1, ← l.set_num-str k j v cap n facts.0 b.0)
        (put_all-str cap j xs ((nvs.set_num k v n).1) b.1 (sym (ap (λ r. r.0) facts.1) ∙ h))
  put_all-str cap j ((k, inr v) ∷ xs) n b h =
      let facts = and_then-ok (nvs.set_str k v n) (put_all nvs xs) h in
      rw (facts.1, ← l.set_str-str k j v cap n facts.0)
        (put_all-str cap j xs ((nvs.set_str k v n).1) b (sym (ap (λ r. r.0) facts.1) ∙ h))

  -- A saved string comes back whole where it fits its buffer.
  pub fits_whole : (cap : ℕ) (v d : Bytes) → length v < cap → or_else (fits cap v) d ≡ v
  fits_whole cap v d h = ground (arith, h)

  pub flag_or-flag : (b d : Bool) → flag_or (some (flag b)) d ≡ b
  unfolding flag_or flag
  flag_or-flag true d = refl
  flag_or-flag false d = refl

  pub saved-num :
      (j : Key) (s : Store) (n : N)
      → IsNum j (entries nvs s.cfg)
      → (config_save nvs s n).0 ≡ esp_ok
      → nvs.get_num j ((config_save nvs s n).2)
        ≡ num_after j (entries nvs s.cfg) (nvs.get_num j ((nvs.open_write n).1))
  unfolding config_save
  saved-num j s n b h =
      let facts = save_opened-ok (nvs.open_write n) s h in
      ap (λ r. nvs.get_num j (r.2)) facts.1
      ∙ l.close-num j _
      ∙ put_all-num j (entries nvs s.cfg) ((nvs.open_write n).1) b facts.0

  pub saved-str :
      (cap : ℕ) (j : Key) (s : Store) (n : N)
      → IsStr j (entries nvs s.cfg)
      → (config_save nvs s n).0 ≡ esp_ok
      → nvs.get_str j cap ((config_save nvs s n).2)
        ≡ str_after cap j (entries nvs s.cfg) (nvs.get_str j cap ((nvs.open_write n).1))
  unfolding config_save
  saved-str cap j s n b h =
      let facts = save_opened-ok (nvs.open_write n) s h in
      ap (λ r. nvs.get_str j cap (r.2)) facts.1
      ∙ l.close-str j cap _
      ∙ put_all-str cap j (entries nvs s.cfg) ((nvs.open_write n).1) b facts.0
