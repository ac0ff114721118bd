-- ===== src/TnfsServer/Process/Keeps.antt =====
-- src/net/tnfs_server.c: what a handler leaves alone in its session.
pub mod Files
pub mod Names
pub mod Streams
pub mod Batches
use fdc_sds_pio.Prelude.{
  List, Option, [], ap, get_or, length, refl, set, suc, zero, ℕ, ◌∷◌, ◌≡◌, ◌≢◌,
}
use fdc_sds_pio.TnfsServer.State.{Dirslot, Session, zero_slot}
use fdc_sds_pio.TnfsServer.Files.{Handled}
use fdc_sds_pio.Tnfs.Status.{st_ok}

-- Only the tables of files and directories can differ, in what their slots hold.
pub record Keeps (s s1 : Session) : Type 0 where
  pub live_kept : s1.live ≡ s.live
  pub sid_kept : s1.sid ≡ s.sid
  pub peer_kept : s1.peer ≡ s.peer
  pub time_kept : s1.last_active_us ≡ s.last_active_us
  pub root_kept : s1.root ≡ s.root
  pub cache_kept : s1.cached ≡ s.cached
  pub files_kept : length s1.files ≡ length s.files
  pub dirs_kept : length s1.dirs ≡ length s.dirs

-- And a status other than TNFS_OK means that nothing differs.
abbrev pub Handles : {E : Type 0} → Session → Handled E → Type 0
Handles s (body, s1, e) = Keeps s s1 × (get_or body 0 0 ≢ st_ok → s1 ≡ s)

pub Keeps-same : (s : Session) → Keeps s s
Keeps-same s = record {
  live_kept = refl;
  sid_kept = refl;
  peer_kept = refl;
  time_kept = refl;
  root_kept = refl;
  cache_kept = refl;
  files_kept = refl;
  dirs_kept = refl;
}

pub answered : {P : Type 0} (s : Session) → Keeps s s × (P → s ≡ s)
answered s = (Keeps-same s, λ h. refl)

length-set {ℓ} : {A : Type ℓ} (xs : List A) (i : ℕ) (v : A) → length (set xs i v) ≡ length xs
length-set [] i v = refl
length-set (x ∷ xs) zero v = refl
length-set (x ∷ xs) (suc i) v = ap suc (length-set xs i v)

pub Keeps-files :
    (s : Session) (i : ℕ) (f : Option ℕ) → Keeps s (record s { files = set s.files i f })
Keeps-files s i f = record {
  live_kept = refl;
  sid_kept = refl;
  peer_kept = refl;
  time_kept = refl;
  root_kept = refl;
  cache_kept = refl;
  files_kept = length-set s.files i f;
  dirs_kept = refl;
}

pub Keeps-dirs : (s : Session) (i : ℕ) (d : Dirslot) → Keeps s (record s { dirs = set s.dirs i d })
Keeps-dirs s i d = record {
  live_kept = refl;
  sid_kept = refl;
  peer_kept = refl;
  time_kept = refl;
  root_kept = refl;
  cache_kept = refl;
  files_kept = refl;
  dirs_kept = length-set s.dirs i d;
}

-- A slot put back where it was.
set-get_or {ℓ} : {A : Type ℓ} (xs : List A) (i : ℕ) (z : A) → set xs i (get_or xs i z) ≡ xs
set-get_or [] i z = refl
set-get_or (x ∷ xs) zero z = refl
set-get_or (x ∷ xs) (suc i) z = ap (◌∷◌ x) (set-get_or xs i z)

pub slot_back :
    (s : Session) (h : ℕ) (d : Dirslot)
    → d ≡ get_or s.dirs h zero_slot
    → record s { dirs = set s.dirs h d } ≡ s
slot_back s h d e =
    rw e (ap (λ (ds : List Dirslot). record s { dirs = ds }) (set-get_or s.dirs h zero_slot))
