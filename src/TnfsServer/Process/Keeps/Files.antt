-- ===== src/TnfsServer/Process/Keeps/Files.antt =====
-- src/net/tnfs_server.c: the session under the handlers of files.
use fdc_sds_pio.Prelude.{
  Bool, Bool-cases, Bytes, Option, [], drop, get_or, if◌then◌else◌, inl, inr, length, ltb, min,
  negsuc, none, refl, some, take, ℕ, ℤ, ◌&&◌, ◌+◌, ◌==◌, ◌∷◌, ◌⊎◌,
}
use fdc_sds_pio.TnfsServer.Os.{OpenFlags, Os, Whence}
use fdc_sds_pio.TnfsServer.State.{Session, abs_cap}
use fdc_sds_pio.TnfsServer.Paths.{memchr_nul, resolve_path}
use fdc_sds_pio.TnfsServer.Files.{
  close_slot, file_at, free_file, h_close, h_lseek, h_open, h_read, h_write, is_refused, lseek_done,
  lseek_slot, open_flagged, open_flags, open_named, open_opened, open_resolved, open_slot,
  read_done, read_slot, to_int32, whence_of, write_done, write_slot, writes,
}
use fdc_sds_pio.Tnfs.Proto.{io_chunk, rd16, rd32}
use fdc_sds_pio.TnfsServer.Process.Keeps.{Handles, answered, Keeps-files}

module _ {E : Type 0} (os : Os E) where
  open_opened-Handles :
      (s : Session) (slot : ℕ) (g : Bool) (fd : Option ℕ) (e : E)
      → Handles s (open_opened os s slot g fd e)
  unfolding open_opened
  open_opened-Handles s slot g none e = answered s
  open_opened-Handles s slot g (some fd) e = (Keeps-files s slot (some fd), λ h. absurd (h refl))

  open_flagged-Handles :
      (s : Session) (slot : ℕ) (abs : Bytes) (of : OpenFlags) (e : E)
      → Handles s (open_flagged os s slot abs of e)
  unfolding open_flagged
  open_flagged-Handles s slot abs of e =
      let (r, e1) : ℤ × E = if writes of then os.disk_change_begin abs e else (negsuc 0, e) in
      let r2 = os.open_file abs of e1 in
      elim (Bool-cases (writes of && is_refused r)) [
        | inl q ↦ rw q (answered s)
        | inr q ↦ rw q (open_opened-Handles s slot (writes of) r2.0 r2.1)
      ]

  pub h_open-Handles : (s : Session) (pl : Bytes) (e : E) → Handles s (h_open os s pl e)
  unfolding h_open open_named open_resolved open_slot
  h_open-Handles s pl e = elim (Bool-cases (ltb (length pl) 5)) [
    | inl q ↦ rw q (answered s)
    | inr q ↦ rw q (named (memchr_nul (drop 4 pl)) (rd16 pl))
  ]
    where
      slotted : (i : Option ℕ) (abs : Bytes) (tf : ℕ) → Handles s (open_slot os s i abs tf e)
      slotted none abs tf = answered s
      slotted (some i) abs tf = open_flagged-Handles s i abs (open_flags tf) e

      resolved : (r : Bytes ⊎ ℕ) (tf : ℕ) → Handles s (open_resolved os s r tf e)
      resolved (inr st) tf = answered s
      resolved (inl abs) tf = slotted (free_file s.files 0) abs tf

      named : (p : Option (Bytes × Bytes)) (tf : ℕ) → Handles s (open_named os s p tf e)
      named none tf = answered s
      named (some (path, _)) tf = resolved (resolve_path s path abs_cap) tf

  pub h_read-Handles : (s : Session) (pl : Bytes) (e : E) → Handles s (h_read os s pl e)
  unfolding h_read read_slot
  h_read-Handles s pl e = elim (Bool-cases (ltb (length pl) 3)) [
    | inl q ↦ rw q (answered s)
    | inr q ↦ rw q (slotted (file_at s (get_or pl 0 0)) (min (rd16 (drop 1 pl)) io_chunk))
  ]
    where
      result : (want : ℕ) (r : Option Bytes) (e1 : E) → Handles s (read_done os s want r e1)
      result want none e1 = answered s
      result want (some bytes) e1 = elim (Bool-cases (length bytes == 0 && ltb 0 want)) [
        | inl q ↦ rw q (answered s)
        | inr q ↦ rw q (answered s)
      ]

      slotted : (i : Option ℕ) (want : ℕ) → Handles s (read_slot os s i want e)
      slotted none want = answered s
      slotted (some fd) want = result want (os.read fd want e).0 (os.read fd want e).1

  pub h_write-Handles : (s : Session) (pl : Bytes) (e : E) → Handles s (h_write os s pl e)
  unfolding h_write write_slot write_done
  h_write-Handles s pl e = elim (Bool-cases (ltb (length pl) 3)) [
    | inl q ↦ rw q (answered s)
    | inr q ↦ rw q (elim (Bool-cases (ltb (length pl) (3 + rd16 (drop 1 pl)))) [
      | inl c ↦ rw c (answered s)
      | inr c ↦ rw c (slotted (file_at s (get_or pl 0 0)) (take (rd16 (drop 1 pl)) (drop 3 pl)))
    ])
  ]
    where
      result : (r : Option ℕ) (e1 : E) → Handles s (write_done os s r e1)
      result none e1 = answered s
      result (some w) e1 = answered s

      slotted : (i : Option ℕ) (bytes : Bytes) → Handles s (write_slot os s i bytes e)
      slotted none bytes = answered s
      slotted (some fd) bytes = result (os.write fd bytes e).0 (os.write fd bytes e).1

  pub h_close-Handles : (s : Session) (pl : Bytes) (e : E) → Handles s (h_close os s pl e)
  unfolding h_close close_slot
  h_close-Handles s [] e = answered s
  h_close-Handles s (fd ∷ pl) e = slotted (file_at s fd)
    where
      slotted : (i : Option ℕ) → Handles s (close_slot os s fd i e)
      slotted none = answered s
      slotted (some n) = (Keeps-files s fd none, λ h. absurd (h refl))

  pub h_lseek-Handles : (s : Session) (pl : Bytes) (e : E) → Handles s (h_lseek os s pl e)
  unfolding h_lseek lseek_slot lseek_done
  h_lseek-Handles s pl e = elim (Bool-cases (ltb (length pl) 6)) [
    | inl q ↦ rw q (answered s)
    | inr q ↦ rw q (
        slotted (file_at s (get_or pl 0 0)) (whence_of (get_or pl 1 0))
          (to_int32 (rd32 (drop 2 pl))))
  ]
    where
      result : (r : Option ℕ) (e1 : E) → Handles s (lseek_done os s r e1)
      result none e1 = answered s
      result (some w) e1 = answered s

      slotted : (i : Option ℕ) (w : Option Whence) (off : ℤ) → Handles s (lseek_slot os s i w off e)
      slotted none w off = answered s
      slotted (some fd) none off = answered s
      slotted (some fd) (some w) off = result (os.lseek fd off w e).0 (os.lseek fd off w e).1
