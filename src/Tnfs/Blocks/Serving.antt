-- ===== src/Tnfs/Blocks/Serving.antt =====
-- src/net/tnfs.c: what the protocol says of a server, for the reads of an open file.
use fdc_sds_pio.Tnfs.Framing.Pieces.{some_eq}
use fdc_sds_pio.Prelude.{
  Bool-cases, Bytes, [], ap, arith, drop, inl, inr, length, length-drop, length-take, ltb, not,
  refl, some, suc, sym, take, zero, ℕ, ◌++◌, ◌+◌, ◌<◌, ◌==◌, ◌^◌, ◌||◌, ◌∙◌, ◌∷◌, ◌≡◌, ◌≤◌, ◌⊎◌,
}
use fdc_sds_pio.Tnfs.Status.{st_eof, st_ok}
use fdc_sds_pio.Esp.{esp_ok}
use fdc_sds_pio.Disk.Laws.{slice}
use fdc_sds_pio.Tnfs.Net.{Net}
use fdc_sds_pio.Tnfs.Client.{File, status, tnfs_command}
use fdc_sds_pio.Tnfs.Blocks.{data_of}
use fdc_sds_pio.Tnfs.Proto.{rd16, wr16, wr32}
use fdc_sds_pio.Tnfs.Cmd.{cmd_lseek, cmd_read}

-- The count in an answer to a READ.
abbrev pub count : File → ℕ
count f = rd16 (drop 5 f.resp)

-- What the protocol says of a server that one session uses, for its one open file: the server has a
-- file and a place in it, which every request of the session means, whatever its descriptor.
pub record FileServer {E : Type 0} (net : Net E) : Type 0 where
  pub file : E → Bytes
  pub place : E → ℕ
  -- Seeking and reading do not change the file.
  pub lseek_keeps :
      (f : File) (off : ℕ) (e : E)
      → file (tnfs_command net f cmd_lseek (f.fd ∷ 0 ∷ wr32 off) e).2 ≡ file e
  pub read_keeps :
      (f : File) (want : ℕ) (e : E)
      → file (tnfs_command net f cmd_read (f.fd ∷ wr16 want) e).2 ≡ file e
  -- An LSEEK that is answered with TNFS_OK has moved the place.
  pub lseek_moves :
      (f : File) (off : ℕ) (e : E)
      → off < 2 ^ 32
      → let r = tnfs_command net f cmd_lseek (f.fd ∷ 0 ∷ wr32 off) e in
        r.0 ≡ esp_ok → status r.1 ≡ st_ok → place r.2 ≡ off
  -- A READ that is answered with TNFS_OK or TNFS_EOF gives, behind its count, so many bytes from
  -- the place on, which moves behind them.
  pub read_gives :
      (f : File) (want : ℕ) (e : E)
      → let r = tnfs_command net f cmd_read (f.fd ∷ wr16 want) e in
        r.0 ≡ esp_ok
        → (status r.1 ≡ st_ok) ⊎ (status r.1 ≡ st_eof)
        → 7 + count r.1 ≤ length r.1.resp
        → (take (count r.1) (drop 7 r.1.resp) ≡ slice (place e) (count r.1) (file e))
          × (place r.2 ≡ place e + count r.1)

-- What tnfs_read_at takes out of an answer.
pub data_of-received :
    (want : ℕ) (f : File) (bytes : Bytes)
    → data_of want f ≡ some bytes
    → ((status f ≡ st_ok) ⊎ (status f ≡ st_eof))
      × (7 + count f ≤ length f.resp)
      × (take (count f) (drop 7 f.resp) ≡ bytes)
      × (length (take (count f) (drop 7 f.resp)) ≡ count f)
unfolding data_of
data_of-received want f bytes h =
    let got = count f in
    elim (Bool-cases (not (status f == st_ok || status f == st_eof) || ltb (length f.resp) 7)) [
      | inl q ↦ absurd (ground (arith, q, h))
      | inr q ↦ elim (Bool-cases (got == 0 || ltb want got || ltb (length f.resp) (7 + got))) [
        | inl r ↦ absurd (ground (arith, q, r, h))
        | inr r ↦ (
          ground (arith, q),
          ground (arith, r),
          some_eq _ _ (rw (q, r) at h),
          ground (arith, r, length-take got (drop 7 f.resp), length-drop 7 f.resp),
        )
      ]
    ]

take_nil : (n : ℕ) → take {A = ℕ} n [] ≡ []
take_nil zero = refl
take_nil (suc n) = refl

drop_nil : (n : ℕ) → drop {A = ℕ} n [] ≡ []
drop_nil zero = refl
drop_nil (suc n) = refl

take_more : (a b : ℕ) (xs : Bytes) → take a xs ++ take b (drop a xs) ≡ take (a + b) xs
take_more zero b xs = let z : 0 + b ≡ b = omega arith in rw z refl
take_more (suc a) b [] = take_nil b ∙ sym (take_nil (suc a + b))
take_more (suc a) b (x ∷ xs) =
    let s : suc a + b ≡ suc (a + b) = omega arith in rw s (ap (◌∷◌ x) (take_more a b xs))

pub drop_more : (a b : ℕ) (xs : Bytes) → drop b (drop a xs) ≡ drop (a + b) xs
drop_more zero b xs = let z : 0 + b ≡ b = omega arith in rw z refl
drop_more (suc a) b [] = drop_nil b ∙ sym (drop_nil (suc a + b))
drop_more (suc a) b (x ∷ xs) =
    let s : suc a + b ≡ suc (a + b) = omega arith in rw s (drop_more a b xs)

pub slice_more :
    (off a b : ℕ) (file : Bytes)
    → slice off a file ++ slice (off + a) b file ≡ slice off (a + b) file
slice_more off a b file = rw (← drop_more off a file) (take_more a b (drop off file))

module _ {E : Type 0} (net : Net E) (srv : FileServer net) where
  -- What a READ gives tnfs_read_at.
  pub served :
      (f : File) (want : ℕ) (e : E) (bytes : Bytes)
      → let r = tnfs_command net f cmd_read (f.fd ∷ wr16 want) e in
        r.0 ≡ esp_ok
        → data_of want r.1 ≡ some bytes
        → (bytes ≡ slice (srv.place e) (length bytes) (srv.file e))
          × (srv.place r.2 ≡ srv.place e + length bytes)
  served f want e bytes ok h =
      let g = (tnfs_command net f cmd_read (f.fd ∷ wr16 want) e).1 in
      let (good, whole, same, size) = data_of-received want g bytes h in
      let (gives, moved) = srv.read_gives f want e ok good whole in
      let n : length bytes ≡ count g = ap (λ (b : Bytes). length b) (sym same) ∙ size in
      rw n (sym same ∙ gives, moved)
