-- ===== src/Tnfs/Blocks/Content.antt =====
-- src/net/tnfs.c: tnfs_read_at against the file on the server.
use fdc_sds_pio.Tnfs.Client.Answer.{tnfs_command-IsAnswer}
use fdc_sds_pio.Tnfs.Blocks.Whole.{
  Seeked, data_of-length, is_ok_eq, is_ok_lem, kept_pos, tnfs_seek-Seeked,
}
use fdc_sds_pio.Tnfs.Framing.Pieces.{NetLaws}
use fdc_sds_pio.Prelude.{
  Bool-cases, Bytes, Option, [], ap, append_assoc, append_nil, arith, false, inl, inr, length, min,
  none, refl, some, suc, sym, true, zero, ℕ, ◌%◌, ◌&&◌, ◌++◌, ◌+◌, ◌-◌, ◌<◌, ◌==◌, ◌^◌, ◌∙◌, ◌∷◌,
  ◌≡◌, ◌≢◌, ◌≤◌,
}
use fdc_sds_pio.Tnfs.Status.{st_ok}
use fdc_sds_pio.Esp.{Esp, esp_fail, esp_ok, is_ok}
use fdc_sds_pio.Disk.Laws.{slice}
use fdc_sds_pio.Tnfs.Net.{Net}
use fdc_sds_pio.Tnfs.Blocks.Serving.{FileServer, served, slice_more}
use fdc_sds_pio.Tnfs.Client.{Called, File, seek_answered, status, tnfs_command, tnfs_seek}
use fdc_sds_pio.Tnfs.Blocks.{
  ReadAt, data_of, lost, read_answered, read_data, read_loop, read_seeked, tnfs_read_at,
}
use fdc_sds_pio.Tnfs.Proto.{io_chunk, wr16, wr32}
use fdc_sds_pio.Tnfs.Cmd.{cmd_lseek, cmd_read}

module _ {E : Type 0} (net : Net E) (laws : NetLaws net) (srv : FileServer net) where
  -- Where the session trusts its position, it is the server's.
  abbrev pub Tracks : File → E → Type 0
  Tracks f e = f.pos_valid ≡ true → srv.place e ≡ f.pos

  -- A read of `len` bytes at `off`, with `dst` in the buffer before it.
  pub record IsContent (off len : ℕ) (dst : Bytes) (e : E) (r : ReadAt E) : Type 0 where
    pub content : r.0 ≡ esp_ok → r.1 ≡ dst ++ slice off len (srv.file e)
    pub unchanged : srv.file r.3 ≡ srv.file e
    pub tracks : Tracks r.2 r.3

  broken :
      (off len : ℕ) (dst : Bytes) (g : File) (err : Esp) (e e1 : E)
      → err ≢ esp_ok
      → g.pos_valid ≡ false
      → srv.file e1 ≡ srv.file e
      → IsContent off len dst e (err, dst, g, e1)
  broken off len dst g err e e1 n u k = record {
    content = λ h. absurd (n h);
    unchanged = k;
    tracks = λ h. absurd (cc (h, u));
  }

  -- After a seek.
  abbrev pub AtPlace : ℕ → E → Called E → Type 0
  AtPlace off e (err, g, e1) = (srv.file e1 ≡ srv.file e) × (err ≡ esp_ok → srv.place e1 ≡ off)

  answered_place :
      (off : ℕ) (e : E) (r : Called E)
      → srv.file r.2 ≡ srv.file e
      → (r.0 ≡ esp_ok → status r.1 ≡ st_ok → srv.place r.2 ≡ off)
      → AtPlace off e (seek_answered off r)
  unfolding seek_answered
  answered_place off e (err, g, e1) k m = elim (Bool-cases (is_ok err)) [
    | inr q ↦ rw q (k, λ h. absurd (is_ok_lem err q h))
    | inl q ↦ rw q (elim (Bool-cases (status g == st_ok)) [
      | inl r ↦ rw r (k, λ h. m (is_ok_eq err q) (ground (arith, r)))
      | inr r ↦ rw r (k, λ h. absurd (cc))
    ])
  ]

  pub tnfs_seek-AtPlace :
      (f : File) (off : ℕ) (e : E)
      → off < 2 ^ 32
      → Tracks f e
      → AtPlace off e (tnfs_seek net f off e)
  unfolding tnfs_seek
  tnfs_seek-AtPlace f off e small t = elim (Bool-cases (f.pos_valid && f.pos == off)) [
    | inl q ↦ rw q (refl, λ h. t (ground (arith, q)) ∙ ground (arith, q))
    | inr q ↦
        let pl = f.fd ∷ 0 ∷ wr32 off in
        rw q (
          answered_place off e (tnfs_command net f cmd_lseek pl e) (srv.lseek_keeps f off e)
            (srv.lseek_moves f off e small))
  ]

  -- What the rest of the loop reads.
  abbrev Continues : (ℕ → ℕ → Bytes → File → E → ReadAt E) → ℕ → Type 0
  Continues rest len =
      (off1 len1 : ℕ) (dst1 : Bytes) (g1 : File) (e1 : E)
      → len1 < len
      → off1 + len1 < 2 ^ 32
      → Tracks g1 e1
      → IsContent off1 len1 dst1 e1 (rest off1 len1 dst1 g1 e1)

  joined :
      (off got len : ℕ) (dst bytes : Bytes) (e e1 : E) (r : ReadAt E)
      → got ≤ len
      → bytes ≡ slice off got (srv.file e)
      → srv.file e1 ≡ srv.file e
      → IsContent (off + got) (len - got) (dst ++ bytes) e1 r
      → IsContent off len dst e r
  joined off got len dst bytes e e1 r below same k c = record {
    content = λ h.
        let file = srv.file e in
        let rest : Bytes = slice (off + got) (len - got) file in
        let whole : got + (len - got) ≡ len = omega arith in
        let here : bytes ++ rest ≡ slice off got file ++ rest =
          ap (λ (b : Bytes). b ++ rest) same in
        let on : slice off (got + (len - got)) file ≡ slice off len file =
          ap (λ (n : ℕ). slice off n file) whole in
        let moved : r.1 ≡ (dst ++ bytes) ++ rest =
          c.content h ∙ ap (λ (b : Bytes). (dst ++ bytes) ++ slice (off + got) (len - got) b) k in
        let all : bytes ++ rest ≡ slice off len file =
          here ∙ slice_more off got (len - got) file ∙ on in
        moved ∙ append_assoc dst bytes rest ∙ ap (λ (xs : Bytes). dst ++ xs) all;
    unchanged = c.unchanged ∙ k;
    tracks = c.tracks;
  }

  read_data-IsContent :
      (rest : ℕ → ℕ → Bytes → File → E → ReadAt E) (off len : ℕ) (dst : Bytes)
      (got_data : Option Bytes) (g : File) (e e1 : E)
      → Continues rest len
      → off + len < 2 ^ 32
      → ((bytes : Bytes)
          → got_data ≡ some bytes
          → (0 < length bytes)
            × (length bytes ≤ min len io_chunk)
            × (bytes ≡ slice off (length bytes) (srv.file e))
            × (srv.place e1 ≡ off + length bytes))
      → g.pos ≡ off
      → srv.file e1 ≡ srv.file e
      → IsContent off len dst e (read_data rest off len dst got_data g e1)
  unfolding read_data
  read_data-IsContent rest off len dst none g e e1 ih small gives at_off k =
      broken off len dst (lost g) esp_fail e e1 (λ h. absurd (cc)) refl k
  read_data-IsContent rest off len dst (some bytes) g e e1 ih small gives at_off k =
      let (positive, below, same, moved) = gives bytes refl in
      let got = length bytes in
      let near : (off + got) % 2 ^ 32 ≡ off + got = omega arith in
      let g1 = record g { pos = (g.pos + got) % 2 ^ 32 } in
      let at_place : srv.place e1 ≡ g1.pos = omega (arith, moved, at_off, near) in
      rw near (
        joined off got len dst bytes e e1 (rest (off + got) (len - got) (dst ++ bytes) g1 e1)
          (omega arith) same k
          (ih (off + got) (len - got) (dst ++ bytes) g1 e1 (omega arith) (omega arith)
            (λ h. at_place)))

  given :
      (off want : ℕ) (e e1 : E) (g : File) (bytes : Bytes)
      → srv.file e1 ≡ srv.file e
      → srv.place e1 ≡ off
      → (0 < length bytes) × (length bytes ≤ want)
      → (bytes ≡ slice (srv.place e1) (length bytes) (srv.file e1))
        × (srv.place (tnfs_command net g cmd_read (g.fd ∷ wr16 want) e1).2
            ≡ srv.place e1 + length bytes)
      → (0 < length bytes)
        × (length bytes ≤ want)
        × (bytes ≡ slice off (length bytes) (srv.file e))
        × (srv.place (tnfs_command net g cmd_read (g.fd ∷ wr16 want) e1).2 ≡ off + length bytes)
  given off want e e1 g bytes k p (a, b) (same, moved) =
      (a, b, (rw (p, k) at same), (rw p at moved))

  read_seeked-IsContent :
      (rest : ℕ → ℕ → Bytes → File → E → ReadAt E) (off len : ℕ) (dst : Bytes) (e : E)
      (r : Called E)
      → Continues rest len
      → off + len < 2 ^ 32
      → Seeked off r
      → AtPlace off e r
      → IsContent off len dst e (read_seeked net rest off len dst r)
  unfolding read_seeked read_answered
  read_seeked-IsContent rest off len dst e (err, g, e1) ih small s (k, at_off) =
      elim (Bool-cases (is_ok err)) [
        | inr q ↦ rw q (broken off len dst g err e e1 (is_ok_lem err q) (s.1 (is_ok_lem err q)) k)
        | inl q ↦
            let ok = is_ok_eq err q in
            let want = min len io_chunk in
            let pl = g.fd ∷ wr16 want in
            let r = tnfs_command net g cmd_read pl e1 in
            let kept = (tnfs_command-IsAnswer net laws g cmd_read pl e1).kept in
            let still = srv.read_keeps g want e1 ∙ k in
            rw q (elim (Bool-cases (is_ok r.0)) [
              | inr p ↦ rw p (broken off len dst (lost r.1) r.0 e r.2 (is_ok_lem r.0 p) refl still)
              | inl p ↦ rw p (
                  read_data-IsContent rest off len dst (data_of want r.1) r.1 e r.2 ih small
                    (λ bytes h.
                      given off want e e1 g bytes k (at_off ok) (data_of-length want r.1 bytes h)
                        (served net srv g want e1 bytes (is_ok_eq r.0 p) h))
                    (kept_pos r.1 g kept ∙ (s.0 ok).1) still)
            ])
      ]

  read_loop-IsContent :
      (n off len : ℕ) (dst : Bytes) (f : File) (e : E)
      → len ≤ n
      → off + len < 2 ^ 32
      → Tracks f e
      → IsContent off len dst e (read_loop net n off len dst f e)
  unfolding read_loop
  read_loop-IsContent n off zero dst f e l small t = record {
    content = λ h. sym (append_nil dst);
    unchanged = refl;
    tracks = t;
  }
  read_loop-IsContent zero off (suc len) dst f e l small t = absurd (omega arith)
  read_loop-IsContent (suc n) off (suc len) dst f e l small t =
      read_seeked-IsContent (read_loop net n) off (suc len) dst e (tnfs_seek net f off e)
        (λ off1 len1 dst1 g1 e1 h k u.
          read_loop-IsContent n off1 len1 dst1 g1 e1 (omega (arith, l, h)) k u)
        small (tnfs_seek-Seeked net f off e) (tnfs_seek-AtPlace f off e (omega arith) t)

  -- Over a server that serves a file as the protocol says, tnfs_read_at inside 32 bits gives, where
  -- it succeeds, the bytes of the file at the offset, in as many commands as it takes. Whether it
  -- succeeds or not the file is as it was, and wherever the session trusts its position that is the
  -- server's, if it was before: a seek that is left out was not needed.
  pub tnfs_read_at-IsContent :
      (f : File) (off len : ℕ) (e : E)
      → off + len < 2 ^ 32
      → Tracks f e
      → IsContent off len [] e (tnfs_read_at net f off len e)
  unfolding tnfs_read_at
  tnfs_read_at-IsContent f off len e small t =
      read_loop-IsContent len off len [] f e (omega arith) small t
