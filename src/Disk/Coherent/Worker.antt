-- ===== src/Disk/Coherent/Worker.antt =====
-- src/disk/disk.c: the cache under the worker and the tasks beside it.
use fdc_sds_pio.Esp.{Esp, is_ok}
use fdc_sds_pio.Disk.Coherent.Storage.{is_ok_iff, read_at-image, read_at-keeps}
use fdc_sds_pio.Prelude.{
  Bool, Bool-cases, Bytes, Option, ap, arith, false, inl, inr, length, none, some, sym, take,
  take_all, true, ℕ, ℤ, ◌&&◌, ◌∙◌, ◌≡◌,
}
use fdc_sds_pio.Protocol.{track_in_bounds, track_offset}
use fdc_sds_pio.Disk.Io.{Io}
use fdc_sds_pio.Disk.Backing.{Backing, read_at, same_backing, size_of}
use fdc_sds_pio.Disk.Table.{Disk, drive_ok}
use fdc_sds_pio.Disk.Worker.{
  Handoff, Others, abandoned, no_memory, no_queue, pick, post_wait, queue_full, read_install,
  read_picked, served, worker_read,
}
use fdc_sds_pio.Disk.Laws.{IoLaws, slice}
use fdc_sds_pio.Disk.Coherent.Invariant.{
  IsCoherent, IsTrack, Storage, cache_fill-IsCoherent, same_images-IsCoherent,
}

-- What the other tasks do keeps the cache coherent.
abbrev pub Keeps : {E : Type 0} → Storage E → Others E → Type 0
Keeps {E} image others =
    (s : Disk) (e : E) → IsCoherent image s e → IsCoherent image (others s e).0 (others s e).1

-- The others leave the image behind a remote session alone, since the session is the worker's, and
-- no other object comes to stand at the address of a backing that the worker uses.
pub record IsOwned {E : Type 0} (image : Storage E) (others : Others E) : Type 0 where
  pub images :
      (s : Disk) (e : E) (d : ℤ) (b : Backing)
      → (s.drv d).remote ≡ true
      → (s.drv d).backing ≡ some b
      → image (others s e).1 b ≡ image e b
  pub identity :
      (s : Disk) (e : E) (d : ℤ) (b : Backing)
      → (s.drv d).backing ≡ some b
      → same_backing ((others s e).0.drv d).backing b ≡ true
      → ((others s e).0.drv d).backing ≡ some b

-- What the others do while the worker reads.
abbrev pub IsCalm : {E : Type 0} → Storage E → Others E → Type 0
IsCalm image others = Keeps image others × IsOwned image others

-- The hand-off is to a worker and to tasks that keep the cache coherent.
abbrev pub IsPeaceful : {E : Type 0} → Storage E → Handoff E → Type 0
IsPeaceful image no_memory = Unit {0}
IsPeaceful image no_queue = Unit {0}
IsPeaceful image queue_full = Unit {0}
IsPeaceful image (served before during after) =
    Keeps image before × IsCalm image during × Keeps image after
IsPeaceful image (abandoned others) = Keeps image others

-- The state that an operation leaves is coherent.
abbrev pub IsSound : {E : Type 0} → Storage E → Esp × Disk × E → Type 0
IsSound image r = IsCoherent image r.1 r.2

-- What a picked backing is known to be.
abbrev pub IsHeld : Disk → ℤ → Option Backing → Type 0
IsHeld s d none = Unit {0}
IsHeld s d (some b) = ((s.drv d).backing ≡ some b) × ((s.drv d).remote ≡ true)

module _ {E : Type 0} (io : Io E) (laws : IoLaws io) where
  open laws use {image, apart}

  pub pick-some :
      (writing : Bool) (d : ℤ) (track len : ℕ) (s : Disk) (e : E) {b : Backing}
      → pick io writing d track len s e ≡ some b
      → ((s.drv d).backing ≡ some b)
        × (drive_ok d ≡ true)
        × ((s.drv d).mounted ≡ true)
        × ((s.drv d).remote ≡ true)
        × (track_in_bounds track len (size_of io b e) ≡ true)
  unfolding pick
  pick-some writing d track len s e h = ground arith

  read_install-IsCoherent :
      (d : ℤ) (track : ℕ) (b : Backing) (stage : Bytes) (s : Disk) (e : E)
      → (same_backing (s.drv d).backing b ≡ true → (s.drv d).backing ≡ some b)
      → IsTrack image (some b) track (length stage) stage e
      → IsCoherent image s e
      → IsCoherent image (read_install d track b stage s).1 e
  unfolding read_install
  read_install-IsCoherent d track b stage s e live t h =
      elim (Bool-cases ((s.drv d).mounted && same_backing (s.drv d).backing b)) [
        | inl there ↦
            rw there (cache_fill-IsCoherent image d track stage s e (rw (live (ground arith)) t))
        | inr gone ↦ rw gone h
      ]

  pub pick-IsHeld :
      (writing : Bool) (d : ℤ) (track len : ℕ) (s : Disk) (e : E)
      → IsHeld s d (pick io writing d track len s e)
  unfolding pick
  pick-IsHeld writing d track len s e = ground arith

  read_picked-IsCoherent :
      (others : Others E) (d : ℤ) (track len : ℕ) (o : Option Backing) (s : Disk) (e : E)
      → IsCalm image others
      → IsHeld s d o
      → IsCoherent image s e
      → IsSound image (read_picked io others d track len o s e)
  unfolding read_picked
  read_picked-IsCoherent others d track len none s e calm held h = h
  read_picked-IsCoherent others d track len (some b) s e calm held h =
      elim (Bool-cases (io.net_is_connected e)) [
        | inr down ↦ rw down h
        | inl up ↦
            rw up (elim (Bool-cases (is_ok (read_at io b (track_offset track len) len e).0)) [
              | inr failed ↦ rw failed (calm.0 s e1 h1)
              | inl done ↦
                  let (len_is, bytes_are) =
                    read_at-image io laws b (track_offset track len) len e (is_ok_iff _ done) in
                  let stage = (read_at io b (track_offset track len) len e).1 in
                  let all : take len stage ≡ stage = take_all len stage len_is in
                  rw (done, all)
                    (read_install-IsCoherent d track b stage (others s e1).0 (others s e1).1
                      (calm.1.identity s e1 d b held.0)
                      (rw len_is (
                        bytes_are
                        ∙ ap (slice (track_offset track len) len) (
                            sym (read_at-keeps io laws b b (track_offset track len) len e)
                            ∙ sym (calm.1.images s e1 d b held.1 held.0))))
                      (calm.0 s e1 h1))
            ])
      ]
    where
      e1 : E
      e1 = (read_at io b (track_offset track len) len e).2

      h1 : IsCoherent image s e1
      h1 =
          same_images-IsCoherent image s e e1
            (λ c _. read_at-keeps io laws b c (track_offset track len) len e) h

  pub worker_read-IsCoherent :
      (others : Others E) (d : ℤ) (track len : ℕ) (s : Disk) (e : E)
      → IsCalm image others
      → IsCoherent image s e
      → IsSound image (worker_read io others d track len s e)
  unfolding worker_read
  worker_read-IsCoherent others d track len s e calm h =
      read_picked-IsCoherent others d track len (pick io false d track len s e) s e calm
        (pick-IsHeld false d track len s e) h

  pub post_wait-IsCoherent :
      (hand : Handoff E) (work : Others E → Disk → E → Esp × Disk × E) (s : Disk) (e : E)
      → IsPeaceful image hand
      → ((others : Others E) (s : Disk) (e : E)
          → IsCalm image others
          → IsCoherent image s e
          → IsSound image (work others s e))
      → IsCoherent image s e
      → IsSound image (post_wait io hand work s e)
  unfolding post_wait
  post_wait-IsCoherent no_memory work s e calm keep h = h
  post_wait-IsCoherent no_queue work s e calm keep h = h
  post_wait-IsCoherent queue_full work s e calm keep h = h
  post_wait-IsCoherent (served before during after) work s e calm keep h =
      let s1 = (before s e).0 in
      let e1 = (before s e).1 in
      calm.2 (work during s1 e1).1 (work during s1 e1).2 (keep during s1 e1 calm.1 (calm.0 s e h))
  post_wait-IsCoherent (abandoned others) work s e calm keep h = calm s e h
