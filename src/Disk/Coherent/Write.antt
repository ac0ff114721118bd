-- ===== src/Disk/Coherent/Write.antt =====
-- src/disk/disk.c: the cache under a write by the worker. While the bytes are on their way to the
-- server the cache may still show the old track of that image, so the others are held to less.
use fdc_sds_pio.Disk.Coherent.Worker.{IsHeld, IsOwned, IsSound, pick-IsHeld, pick-some}
use fdc_sds_pio.Protocol.{track_offset}
use fdc_sds_pio.Prelude.{
  ==_iff, Bool, Bool-cases, Bytes, Option, ap, arith, eq_int, eq_int_iff, false, inl, inr, length,
  none, refl, some, sym, take, true, ℕ, ℤ, ◌&&◌, ◌∙◌, ◌≡◌, ◌≢◌, ◌⊎◌,
}
use fdc_sds_pio.Esp.{Esp, esp_ok, is_ok}
use fdc_sds_pio.Disk.Io.{Io}
use fdc_sds_pio.Disk.Backing.{Backing, address, same_backing, write_at}
use fdc_sds_pio.Disk.Table.{Disk, cache_drop_drive}
use fdc_sds_pio.Disk.Worker.{Others, pick, worker_write, write_install, write_picked}
use fdc_sds_pio.Disk.Laws.{IoLaws, slice}
use fdc_sds_pio.Disk.Coherent.Storage.{is_ok_iff, write_at-image, write_at-keeps}
use fdc_sds_pio.Disk.Coherent.Invariant.{IsCoherent, IsTrack, Storage, cache_fill-IsCoherent}

-- `IsTrack`, but for the file of the backing `b`.
abbrev pub IsTrackBut :
    {E : Type 0}
    → Storage E
    → (Backing → Backing → Bool)
    → Backing
    → Option Backing
    → ℕ
    → ℕ
    → Bytes
    → E
    → Type 0
IsTrackBut image apart b none track len bytes e = ⊥
IsTrackBut image apart b (some c) track len bytes e =
    apart b c ≡ true → bytes ≡ slice (track_offset track len) len (image e c)

pub record IsCoherentBut {E : Type 0} (image : Storage E) (apart : Backing → Backing → Bool)
    (b : Backing) (s : Disk) (e : E) : Type 0 where
  pub cached :
      s.cache.valid ≡ true
      → IsTrackBut image apart b
          (s.drv s.cache.drive).backing
          s.cache.track
          s.cache.len
          (take s.cache.len s.buf)
          e

-- No other drive has the file of the backing `b` that the worker took from drive `d`, nor does drive
-- `d` have it in another object.
abbrev pub IsAlone : (Backing → Backing → Bool) → ℤ → Backing → Disk → Type 0
IsAlone apart d b s =
    (i : ℤ) (c : Backing)
    → (s.drv i).backing ≡ some c
    → (i ≢ d) ⊎ (same_backing (s.drv d).backing b ≡ false)
    → apart b c ≡ true

-- A drive that is not mounted does not have the backing.
abbrev pub IsTabled : ℤ → Backing → Disk → Type 0
IsTabled d b s = (s.drv d).mounted ≡ false → same_backing (s.drv d).backing b ≡ false

-- What the others do while the worker writes to `b` for drive `d`: they keep the cache coherent but
-- for that file, and they do not mount that file on another drive or again.
pub record IsQuiet {E : Type 0} (image : Storage E) (apart : Backing → Backing → Bool) (d : ℤ)
    (b : Backing) (others : Others E) : Type 0 where
  pub but :
      (s : Disk) (e : E)
      → IsCoherentBut image apart b s e
      → IsCoherentBut image apart b (others s e).0 (others s e).1
  pub alone : (s : Disk) (e : E) → IsAlone apart d b s → IsAlone apart d b (others s e).0
  pub table : (s : Disk) (e : E) → IsTabled d b s → IsTabled d b (others s e).0

-- No other drive has the file that drive `d` has.
abbrev pub IsApart : (Backing → Backing → Bool) → Disk → ℤ → Type 0
IsApart apart s d =
    (i : ℤ) (b c : Backing)
    → i ≢ d
    → (s.drv d).backing ≡ some b
    → (s.drv i).backing ≡ some c
    → apart b c ≡ true

module _ {E : Type 0} (io : Io E) (laws : IoLaws io) where
  open laws use {image, apart}

  write_at-IsCoherentBut :
      (b : Backing) (off : ℕ) (bytes : Bytes) (s : Disk) (e : E)
      → IsCoherent image s e
      → IsCoherentBut image apart b s (write_at io b off bytes e).1
  write_at-IsCoherentBut b off bytes s e h = record {
    cached = λ v. go (s.drv s.cache.drive).backing (h.cached v);
  }
    where
      go :
          (o : Option Backing)
          → IsTrack image o s.cache.track s.cache.len (take s.cache.len s.buf) e
          → IsTrackBut image apart b o s.cache.track s.cache.len
              (take s.cache.len s.buf)
              (write_at io b off bytes e).1
      go none t = t
      go (some c) t = λ a.
          t
          ∙ ap (slice (track_offset s.cache.track s.cache.len) s.cache.len)
              (sym (write_at-keeps io laws b c off bytes e a))

  -- Where the cached drive has another file, nothing is excepted.
  IsCoherent-of_apart :
      (b : Backing) (s : Disk) (e : E)
      → (s.cache.valid ≡ true
          → (c : Backing) → (s.drv s.cache.drive).backing ≡ some c
          → apart b c ≡ true)
      → IsCoherentBut image apart b s e
      → IsCoherent image s e
  IsCoherent-of_apart b s e far h = record {
    cached = λ v. go (s.drv s.cache.drive).backing (far v) (h.cached v);
  }
    where
      go :
          (o : Option Backing)
          → ((c : Backing) → o ≡ some c → apart b c ≡ true)
          → IsTrackBut image apart b o s.cache.track s.cache.len (take s.cache.len s.buf) e
          → IsTrack image o s.cache.track s.cache.len (take s.cache.len s.buf) e
      go none f t = t
      go (some c) f t = t (f c refl)

  -- The failed write: what the cache shows of another drive is of another file.
  drop-IsCoherent :
      (d : ℤ) (b : Backing) (s : Disk) (e : E)
      → ((i : ℤ) (c : Backing) → (s.drv i).backing ≡ some c → i ≢ d → apart b c ≡ true)
      → IsCoherentBut image apart b s e
      → IsCoherent image (cache_drop_drive d s) e
  unfolding cache_drop_drive
  drop-IsCoherent d b s e far h = elim (Bool-cases (s.cache.valid && eq_int s.cache.drive d)) [
    | inl mine ↦ rw mine (record { cached = λ v. absurd (ground arith) })
    | inr elsewhere ↦ rw elsewhere (
        IsCoherent-of_apart b s e
          (λ v c q.
            far s.cache.drive c q (λ same. cc (elsewhere, v, (eq_int_iff s.cache.drive d).1 same)))
          h)
  ]

  write_install-IsCoherent :
      (d : ℤ) (track : ℕ) (b : Backing) (bytes : Bytes) (err : Esp) (s : Disk) (e : E)
      → (same_backing (s.drv d).backing b ≡ true → (s.drv d).backing ≡ some b)
      → (err ≡ esp_ok
          → slice (track_offset track (length bytes)) (length bytes) (image e b) ≡ bytes)
      → ((s.drv d).mounted ≡ false → same_backing (s.drv d).backing b ≡ false)
      → ((i : ℤ) (c : Backing)
          → (s.drv i).backing ≡ some c
          → (i ≢ d) ⊎ (same_backing (s.drv d).backing b ≡ false)
          → apart b c ≡ true)
      → IsCoherentBut image apart b s e
      → IsCoherent image (write_install d track b bytes err s) e
  unfolding write_install
  write_install-IsCoherent d track b bytes err s e live put table far h =
      elim (Bool-cases (is_ok err)) [
        | inr failed ↦ rw failed (drop-IsCoherent d b s e (λ i c q ne. far i c q (inl ne)) h)
        | inl done ↦
            rw done (elim (Bool-cases ((s.drv d).mounted && same_backing (s.drv d).backing b)) [
              | inl there ↦ rw there (
                  cache_fill-IsCoherent image d track bytes s e
                    (rw (live (ground arith)) (sym (put (is_ok_iff err done)))))
              | inr gone ↦
                  let away : same_backing (s.drv d).backing b ≡ false = ground (arith, table) in
                  rw gone (IsCoherent-of_apart b s e (λ v c q. far s.cache.drive c q (inr away)) h)
            ])
      ]

  write_picked-IsCoherent :
      (others : Others E) (d : ℤ) (track : ℕ) (bytes : Bytes) (o : Option Backing) (s : Disk)
      (e : E)
      → IsOwned image others
      → ((b : Backing) → (s.drv d).backing ≡ some b → IsQuiet image apart d b others)
      → IsApart apart s d
      → IsHeld s d o
      → ((b : Backing) → o ≡ some b → (s.drv d).mounted ≡ true)
      → IsCoherent image s e
      → IsSound image (write_picked io others d track bytes o s e)
  unfolding write_picked
  write_picked-IsCoherent others d track bytes none s e own quiet far held there h = h
  write_picked-IsCoherent others d track bytes (some b) s e own quiet far held there h =
      elim (Bool-cases (io.net_is_connected e)) [
        | inr down ↦ rw down h
        | inl up ↦
            let off : ℕ = track_offset track (length bytes) in
            let e1 = (write_at io b off bytes e).1 in
            let s2 = (others s e1).0 in
            let e2 = (others s e1).1 in
            let q = quiet b held.0 in
            let mine : same_backing (s.drv d).backing b ≡ true =
              rw held.0 ((==_iff (address b) (address b)).1 refl) in
            let sole : IsAlone apart d b s = λ i c k w. elim w [
              | inl ne ↦ far i b c ne held.0 k
              | inr other ↦ absurd (cc (mine, other))
            ] in
            let mounted = there b refl in
            let tabled : IsTabled d b s = λ off. absurd (cc (mounted, off)) in
            rw up (
              write_install-IsCoherent d track b bytes (write_at io b off bytes e).0 s2 e2
                (own.identity s e1 d b held.0)
                (λ ok.
                  ap (slice off (length bytes)) (own.images s e1 d b held.1 held.0)
                  ∙ write_at-image io laws b off bytes e ok)
                (q.table s e1 tabled) (q.alone s e1 sole)
                (q.but s e1 (write_at-IsCoherentBut b off bytes s e h)))
      ]

  pub worker_write-IsCoherent :
      (others : Others E) (d : ℤ) (track : ℕ) (bytes : Bytes) (s : Disk) (e : E)
      → IsOwned image others
      → ((b : Backing) → (s.drv d).backing ≡ some b → IsQuiet image apart d b others)
      → IsApart apart s d
      → IsCoherent image s e
      → IsSound image (worker_write io others d track bytes s e)
  unfolding worker_write
  worker_write-IsCoherent others d track bytes s e own quiet far h =
      write_picked-IsCoherent others d track bytes (pick io true d track (length bytes) s e) s e own
        quiet far (pick-IsHeld io laws true d track (length bytes) s e)
        (λ b k. (pick-some io laws true d track (length bytes) s e k).2) h
