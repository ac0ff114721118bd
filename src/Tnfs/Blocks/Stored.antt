-- ===== src/Tnfs/Blocks/Stored.antt =====
-- src/net/tnfs.c: tnfs_write_at against the file on the server.
use fdc_sds_pio.Prelude.{
  Bool-cases, Bytes, Option, [], ap, arith, drop, false, if◌then◌else◌, inl, inr, length,
  length-drop, length-take, ltb, min, none, refl, some, suc, sym, take, zero, ℕ, ◌%◌, ◌++◌, ◌+◌,
  ◌-◌, ◌<◌, ◌^◌, ◌∙◌, ◌∷◌, ◌≡◌, ◌≢◌, ◌≤◌,
}
use fdc_sds_pio.Esp.{Esp, esp_fail, esp_ok, is_ok}
use fdc_sds_pio.Tnfs.Net.{Net}
use fdc_sds_pio.Tnfs.Framing.Pieces.{NetLaws}
use fdc_sds_pio.Tnfs.Client.{Called, File, tnfs_command, tnfs_seek}
use fdc_sds_pio.Tnfs.Client.Answer.{tnfs_command-IsAnswer}
use fdc_sds_pio.Tnfs.Blocks.{
  lost, put_of, tnfs_write_at, write_answered, write_loop, write_put, write_seeked,
}
use fdc_sds_pio.Tnfs.Blocks.Whole.{Seeked, is_ok_eq, is_ok_lem, kept_pos, tnfs_seek-Seeked}
use fdc_sds_pio.Tnfs.Blocks.Serving.{FileServer, count}
use fdc_sds_pio.Tnfs.Blocks.Content.{AtPlace, Tracks, tnfs_seek-AtPlace}
use fdc_sds_pio.Tnfs.Proto.{io_chunk, wr16}
use fdc_sds_pio.Tnfs.Cmd.{cmd_write}
use fdc_sds_pio.Tnfs.Blocks.Storing.{
  WriteServer, length-splice, put_of-received, splice, splice_more, splice_nothing, take-drop,
  take-take,
}

module _ {E : Type 0} (net : Net E) (laws : NetLaws net) (srv : FileServer net)
    (writes : WriteServer net srv) where
  -- A write of `src` at `off`.
  pub record IsStored (off : ℕ) (src : Bytes) (e : E) (r : Called E) : Type 0 where
    pub stored : r.0 ≡ esp_ok → srv.file r.2 ≡ splice off src (srv.file e)
    pub tracks : Tracks net laws srv r.1 r.2

  broken :
      (off : ℕ) (src : Bytes) (g : File) (err : Esp) (e e1 : E)
      → err ≢ esp_ok
      → g.pos_valid ≡ false
      → IsStored off src e (err, g, e1)
  broken off src g err e e1 n u = record {
    stored = λ h. absurd (n h);
    tracks = λ h. absurd (cc (h, u));
  }

  -- What the rest of the loop writes.
  abbrev Continues : (ℕ → Bytes → File → E → Called E) → ℕ → Type 0
  Continues rest len =
      (off1 : ℕ) (src1 : Bytes) (g1 : File) (e1 : E)
      → length src1 < len
      → off1 + length src1 < 2 ^ 32
      → off1 ≤ length (srv.file e1)
      → Tracks net laws srv g1 e1
      → IsStored off1 src1 e1 (rest off1 src1 g1 e1)

  joined :
      (off put : ℕ) (src : Bytes) (e e1 : E) (r : Called E)
      → put ≤ length src
      → off ≤ length (srv.file e)
      → srv.file e1 ≡ splice off (take put src) (srv.file e)
      → IsStored (off + put) (drop put src) e1 r
      → IsStored off src e r
  joined off put src e e1 r below inside k c = record {
    stored = λ h.
        let file = srv.file e in
        let front = take put src in
        let size : length front ≡ put = omega (arith, below, length-take put src) in
        c.stored h
        ∙ ap (λ (b : Bytes). splice (off + put) (drop put src) b) k
        ∙ ap (λ (n : ℕ). splice (off + n) (drop put src) (splice off front file)) (sym size)
        ∙ splice_more off front (drop put src) file inside
        ∙ ap (λ (b : Bytes). splice off b file) (take-drop put src);
    tracks = c.tracks;
  }

  -- What is known once `put` bytes have been taken.
  abbrev Taken : ℕ → Bytes → E → E → ℕ → Type 0
  Taken off src e e1 put =
      (0 < put)
      × (put ≤ length src)
      × (srv.file e1 ≡ splice off (take put src) (srv.file e))
      × (srv.place e1 ≡ off + put)

  write_put-IsStored :
      (rest : ℕ → Bytes → File → E → Called E) (off : ℕ) (src : Bytes) (taken : Option ℕ) (g : File)
      (e e1 : E)
      → Continues rest (length src)
      → off + length src < 2 ^ 32
      → off ≤ length (srv.file e)
      → ((put : ℕ) → taken ≡ some put → Taken off src e e1 put)
      → g.pos ≡ off
      → IsStored off src e (write_put rest off src taken g e1)
  unfolding write_put
  write_put-IsStored rest off src none g e e1 ih small inside gives at_off =
      broken off src (lost g) esp_fail e e1 (λ h. absurd (cc)) refl
  write_put-IsStored rest off src (some put) g e e1 ih small inside gives at_off =
      let (positive, below, same, moved) = gives put refl in
      let near : (off + put) % 2 ^ 32 ≡ off + put = omega arith in
      let size = if ltb g.size (off + put) then off + put else g.size in
      let g1 = record g { pos = (g.pos + put) % 2 ^ 32; size = size } in
      let at_place : srv.place e1 ≡ g1.pos = omega (arith, moved, at_off, near) in
      let left : length (drop put src) ≡ length src - put = length-drop put src in
      let front : length (take put src) ≡ put = omega (arith, below, length-take put src) in
      let grown : off + put ≤ length (srv.file e1) = omega (
        arith,
        ap (λ (b : Bytes). length b) same,
        front,
        length-splice off (take put src) (srv.file e) inside,
      ) in
      rw near (
        joined off put src e e1 (rest (off + put) (drop put src) g1 e1) below inside same (
          ih (off + put) (drop put src) g1 e1 (omega (arith, left)) (omega (arith, left)) grown
            (λ h. at_place)))

  -- The answer to a WRITE.
  taken :
      (off want : ℕ) (src : Bytes) (g : File) (e e1 : E) (put : ℕ)
      → want ≤ length src
      → want ≤ io_chunk
      → off ≤ length (srv.file e)
      → srv.file e1 ≡ srv.file e
      → srv.place e1 ≡ off
      → let r = tnfs_command net g cmd_write (g.fd ∷ wr16 want ++ take want src) e1 in
        r.0 ≡ esp_ok → put_of want r.1 ≡ some put → Taken off src e r.2 put
  taken off want src g e e1 put below chunk inside k p ok h =
      let r = tnfs_command net g cmd_write (g.fd ∷ wr16 want ++ take want src) e1 in
      let (good, whole, n, positive, most) = put_of-received want r.1 put h in
      let size : length (take want src) ≡ want = omega (arith, below, length-take want src) in
      let room : srv.place e1 ≤ length (srv.file e1) = rw (p, k) inside in
      let count_most : count r.1 ≤ want = rw n most in
      let (stores, moved) =
        writes.write_stores g want (take want src) e1 size chunk ok good whole count_most room in
      (
        positive,
        omega (arith, most, below),
        stores
            ∙ ap (λ (m : ℕ). splice m (take (count r.1) (take want src)) (srv.file e1)) p
            ∙ ap (λ (m : ℕ). splice off (take m (take want src)) (srv.file e1)) n
            ∙ ap (λ (b : Bytes). splice off b (srv.file e1)) (take-take put want src most)
            ∙ ap (λ (b : Bytes). splice off (take put src) b) k,
        omega (arith, moved, p, n),
      )

  write_seeked-IsStored :
      (rest : ℕ → Bytes → File → E → Called E) (off : ℕ) (src : Bytes) (e : E) (r : Called E)
      → Continues rest (length src)
      → off + length src < 2 ^ 32
      → off ≤ length (srv.file e)
      → Seeked off r
      → AtPlace net laws srv off e r
      → IsStored off src e (write_seeked net rest off src r)
  unfolding write_seeked write_answered
  write_seeked-IsStored rest off src e (err, g, e1) ih small inside s (k, at_off) =
      elim (Bool-cases (is_ok err)) [
        | inr q ↦ rw q (broken off src g err e e1 (is_ok_lem err q) (s.1 (is_ok_lem err q)))
        | inl q ↦
            let ok = is_ok_eq err q in
            let want = min (length src) io_chunk in
            let pl = g.fd ∷ wr16 want ++ take want src in
            let r = tnfs_command net g cmd_write pl e1 in
            let kept = (tnfs_command-IsAnswer net laws g cmd_write pl e1).kept in
            rw q (elim (Bool-cases (is_ok r.0)) [
              | inr p ↦ rw p (broken off src (lost r.1) r.0 e r.2 (is_ok_lem r.0 p) refl)
              | inl p ↦ rw p (
                  write_put-IsStored rest off src (put_of want r.1) r.1 e r.2 ih small inside
                    (λ put h.
                      taken off want src g e e1 put (omega arith) (omega arith) inside k (at_off ok)
                        (is_ok_eq r.0 p) h)
                    (kept_pos r.1 g kept ∙ (s.0 ok).1))
            ])
      ]

  write_loop-IsStored :
      (n off : ℕ) (src : Bytes) (f : File) (e : E)
      → length src ≤ n
      → off + length src < 2 ^ 32
      → off ≤ length (srv.file e)
      → Tracks net laws srv f e
      → IsStored off src e (write_loop net n off src f e)
  unfolding write_loop
  write_loop-IsStored n off [] f e l small inside t = record {
    stored = λ h. sym (splice_nothing off (srv.file e));
    tracks = t;
  }
  write_loop-IsStored zero off (b ∷ src) f e l small inside t = absurd (omega arith)
  write_loop-IsStored (suc n) off (b ∷ src) f e l small inside t =
      write_seeked-IsStored (write_loop net n) off (b ∷ src) e (tnfs_seek net f off e)
        (λ off1 src1 g1 e1 h k i u.
          write_loop-IsStored n off1 src1 g1 e1 (omega (arith, l, h)) k i u)
        small inside (tnfs_seek-Seeked net f off e)
        (tnfs_seek-AtPlace net laws srv f off e (omega arith) t)

  -- Over a server that stores what a WRITE says it has taken, tnfs_write_at of bytes that begin in
  -- the file or right behind it and end inside 32 bits leaves, where it succeeds, the file with
  -- exactly those bytes over it at the offset, in as many commands as it takes; and wherever the
  -- session trusts its position that is the server's, if it was before.
  pub tnfs_write_at-IsStored :
      (f : File) (off : ℕ) (src : Bytes) (e : E)
      → off + length src < 2 ^ 32
      → off ≤ length (srv.file e)
      → Tracks net laws srv f e
      → IsStored off src e (tnfs_write_at net f off src e)
  unfolding tnfs_write_at
  tnfs_write_at-IsStored f off src e small inside t =
      write_loop-IsStored (length src) off src f e (omega arith) small inside t
