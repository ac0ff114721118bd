-- ===== src/Tnfs/Blocks/Written.antt =====
-- src/net/tnfs.c: what a write does to a session.
use fdc_sds_pio.Tnfs.Blocks.Whole.{
  Seeked, is_ok_eq, is_ok_lem, kept_pos, kept_valid, tnfs_seek-Seeked,
}
use fdc_sds_pio.Prelude.{
  Bool, Bool-cases, Bytes, Option, [], ap, arith, drop, false, if◌then◌else◌, inl, inr, length,
  length-drop, ltb, min, none, refl, some, suc, take, true, zero, ℕ, ◌%◌, ◌&&◌, ◌++◌, ◌+◌, ◌-◌, ◌<◌,
  ◌==◌, ◌^◌, ◌∙◌, ◌∷◌, ◌≡◌, ◌≢◌, ◌≤◌,
}
use fdc_sds_pio.Esp.{Esp, esp_fail, esp_ok, is_ok}
use fdc_sds_pio.Tnfs.Net.{Net}
use fdc_sds_pio.Tnfs.Framing.Pieces.{NetLaws}
use fdc_sds_pio.Tnfs.Client.{Called, File, seek_answered, tnfs_command, tnfs_seek}
use fdc_sds_pio.Tnfs.Client.Answer.{kept_fields, tnfs_command-IsAnswer}
use fdc_sds_pio.Tnfs.Blocks.{
  lost, put_of, tnfs_write_at, write_answered, write_loop, write_put, write_seeked,
}
use fdc_sds_pio.Tnfs.Proto.{io_chunk, wr16, wr32}
use fdc_sds_pio.Tnfs.Cmd.{cmd_lseek, cmd_write}

-- A write of `len` bytes at `off`.
pub record IsWrittenAt {E : Type 0} (off len : ℕ) (f : File) (r : Called E) : Type 0 where
  -- The size that the session has of the file never falls, and on success it takes in what was
  -- written;
  pub grown : f.size ≤ r.1.size
  pub covered : r.0 ≡ esp_ok → 0 < len → off + len ≤ r.1.size
  -- then the position is behind it, after an error it is not trusted.
  pub position : r.0 ≡ esp_ok → 0 < len → (r.1.pos_valid ≡ true) × (r.1.pos ≡ off + len)
  pub nothing : len ≡ 0 → (r.0 ≡ esp_ok) × (r.1 ≡ f)
  pub untrusted : r.0 ≢ esp_ok → r.1.pos_valid ≡ false

put_of_lem : (want : ℕ) (f : File) (put : ℕ) → put_of want f ≡ some put → (0 < put) × (put ≤ want)
unfolding put_of
put_of_lem want f put h = ground (arith, h)

kept_size : (f g : File) → kept_fields f ≡ kept_fields g → f.size ≡ g.size
kept_size f g h = ap (λ (p : Bool × ℕ × ℕ × ℕ × ℕ × ℕ × Bool). p.4) h

seek_size : {E : Type 0} (off : ℕ) (r : Called E) → (seek_answered off r).1.size ≡ r.1.size
unfolding seek_answered
seek_size off (err, f, e) = ground arith

module _ {E : Type 0} (net : Net E) (laws : NetLaws net) where
  tnfs_seek_size : (f : File) (off : ℕ) (e : E) → (tnfs_seek net f off e).1.size ≡ f.size
  unfolding tnfs_seek
  tnfs_seek_size f off e = elim (Bool-cases (f.pos_valid && f.pos == off)) [
    | inl q ↦ rw q refl
    | inr q ↦
        let pl = f.fd ∷ 0 ∷ wr32 off in
        let r = tnfs_command net f cmd_lseek pl e in
        rw q
          (seek_size off r ∙ kept_size r.1 f (tnfs_command-IsAnswer net laws f cmd_lseek pl e).kept)
  ]

  stopped :
      (off len : ℕ) (f g : File) (err : Esp) (e : E)
      → err ≢ esp_ok
      → g.pos_valid ≡ false
      → g.size ≡ f.size
      → 0 < len
      → IsWrittenAt off len f (err, g, e)
  stopped off len f g err e n u s l = record {
    grown = omega (arith, s);
    covered = λ h. absurd (n h);
    position = λ h. absurd (n h);
    nothing = λ h. absurd (omega (arith, l, h));
    untrusted = λ h. u;
  }

  continued :
      (off len put : ℕ) (f g : File) (r : Called E)
      → 0 < put
      → put ≤ len
      → f.size ≤ g.size
      → off + put ≤ g.size
      → g.pos_valid ≡ true
      → g.pos ≡ off + put
      → IsWrittenAt (off + put) (len - put) g r
      → IsWrittenAt off len f r
  continued off len put f g r some_put below grows covers valid at_pos k = record {
    grown = omega (arith, k.grown, grows);
    covered = λ h _. elim (Bool-cases (len - put == 0)) [
      | inl q ↦ let done : put ≡ len = ground (arith, q) in omega (arith, k.grown, covers, done)
      | inr q ↦ omega (arith, k.covered h (ground (arith, q)))
    ];
    position = λ h _. elim (Bool-cases (len - put == 0)) [
      | inl q ↦
          let same = (k.nothing (ground (arith, q))).1 in
          let done : put ≡ len = ground (arith, q) in
          (
            ap (λ (x : File). x.pos_valid) same ∙ valid,
            ap (λ (x : File). x.pos) same ∙ rw done at at_pos,
          )
      | inr q ↦ let more = k.position h (ground (arith, q)) in (more.0, omega (arith, more.1))
    ];
    nothing = λ h. absurd (omega (arith, h));
    untrusted = k.untrusted;
  }

  -- What the rest of the loop does with what is left.
  abbrev Continues : (ℕ → Bytes → File → E → Called E) → ℕ → Type 0
  Continues rest len =
      (off : ℕ) (src : Bytes) (g : File) (e : E)
      → length src < len
      → off + length src < 2 ^ 32
      → IsWrittenAt off (length src) g (rest off src g e)

  write_put-IsWrittenAt :
      (rest : ℕ → Bytes → File → E → Called E) (off : ℕ) (src : Bytes) (taken : Option ℕ)
      (f g : File) (e : E)
      → Continues rest (length src)
      → ((put : ℕ) → taken ≡ some put → (0 < put) × (put ≤ min (length src) io_chunk))
      → 0 < length src
      → off + length src < 2 ^ 32
      → g.pos_valid ≡ true
      → g.pos ≡ off
      → g.size ≡ f.size
      → IsWrittenAt off (length src) f (write_put rest off src taken g e)
  unfolding write_put
  write_put-IsWrittenAt rest off src none f g e ih size some_src small valid at_off same_size =
      stopped off (length src) f (lost g) esp_fail e (λ h. absurd (cc)) refl same_size some_src
  write_put-IsWrittenAt rest off src (some put) f g e ih size some_src small valid at_off
        same_size =
      let (positive, below) = size put refl in
      let off1 : (off + put) % 2 ^ 32 ≡ off + put = omega arith in
      let new_size = if ltb g.size (off + put) then off + put else g.size in
      let g1 = record g { pos = (g.pos + put) % 2 ^ 32; size = new_size } in
      let left : length (drop put src) ≡ length src - put = length-drop put src in
      rw off1 (
        continued off (length src) put f g1 (rest (off + put) (drop put src) g1 e) positive
          (omega arith) (ground (arith, same_size)) (ground arith) valid (omega (arith, at_off))
          (rw left at
            (ih (off + put) (drop put src) g1 e (omega (arith, left)) (omega (arith, left)))))

  write_answered-IsWrittenAt :
      (rest : ℕ → Bytes → File → E → Called E) (off : ℕ) (src : Bytes) (f : File) (r : Called E)
      → Continues rest (length src)
      → 0 < length src
      → off + length src < 2 ^ 32
      → r.1.pos_valid ≡ true
      → r.1.pos ≡ off
      → r.1.size ≡ f.size
      → IsWrittenAt off (length src) f (write_answered rest off src r)
  unfolding write_answered
  write_answered-IsWrittenAt rest off src f (err, g, e) ih some_src small valid at_off same_size =
      elim (Bool-cases (is_ok err)) [
        | inr q ↦
            rw q
              (stopped off (length src) f (lost g) err e (is_ok_lem err q) refl same_size some_src)
        | inl q ↦ rw q (
            write_put-IsWrittenAt rest off src (put_of (min (length src) io_chunk) g) f g e ih
              (λ put h. put_of_lem (min (length src) io_chunk) g put h) some_src small valid at_off
              same_size)
      ]

  write_seeked-IsWrittenAt :
      (rest : ℕ → Bytes → File → E → Called E) (off : ℕ) (src : Bytes) (f : File) (r : Called E)
      → Continues rest (length src)
      → 0 < length src
      → off + length src < 2 ^ 32
      → Seeked off r
      → r.1.size ≡ f.size
      → IsWrittenAt off (length src) f (write_seeked net rest off src r)
  unfolding write_seeked
  write_seeked-IsWrittenAt rest off src f (err, g, e) ih some_src small s same_size =
      elim (Bool-cases (is_ok err)) [
        | inr q ↦ rw q (
            stopped off (length src) f g err e (is_ok_lem err q) (s.1 (is_ok_lem err q)) same_size
              some_src)
        | inl q ↦
            let (valid, at_off) = s.0 (is_ok_eq err q) in
            let want = min (length src) io_chunk in
            let pl = g.fd ∷ wr16 want ++ take want src in
            let k = (tnfs_command-IsAnswer net laws g cmd_write pl e).kept in
            let g1 = (tnfs_command net g cmd_write pl e).1 in
            rw q (
              write_answered-IsWrittenAt rest off src f (tnfs_command net g cmd_write pl e) ih
                some_src small (kept_valid g1 g k ∙ valid) (kept_pos g1 g k ∙ at_off)
                (kept_size g1 g k ∙ same_size))
      ]

  write_loop-IsWrittenAt :
      (n off : ℕ) (src : Bytes) (f : File) (e : E)
      → length src ≤ n
      → off + length src < 2 ^ 32
      → IsWrittenAt off (length src) f (write_loop net n off src f e)
  unfolding write_loop
  write_loop-IsWrittenAt n off [] f e l small = record {
    grown = omega arith;
    covered = λ h z. absurd (omega (arith, z));
    position = λ h z. absurd (omega (arith, z));
    nothing = λ h. (refl, refl);
    untrusted = λ h. absurd (h refl);
  }
  write_loop-IsWrittenAt zero off (b ∷ src) f e l small = absurd (omega arith)
  write_loop-IsWrittenAt (suc n) off (b ∷ src) f e l small =
      write_seeked-IsWrittenAt (write_loop net n) off (b ∷ src) f (tnfs_seek net f off e)
        (λ off1 src1 g1 e1 h k. write_loop-IsWrittenAt n off1 src1 g1 e1 (omega (arith, l, h)) k)
        (omega arith) small (tnfs_seek-Seeked net f off e) (tnfs_seek_size f off e)

  -- tnfs_write_at of bytes that end inside 32 bits, whatever the network does, never lowers the size
  -- that the session has of the file, and where it succeeds the size takes in what was written and
  -- the position is behind it; after an error the session does not trust its position. Its loop
  -- always ends.
  pub tnfs_write_at-IsWrittenAt :
      (f : File) (off : ℕ) (src : Bytes) (e : E)
      → off + length src < 2 ^ 32
      → IsWrittenAt off (length src) f (tnfs_write_at net f off src e)
  unfolding tnfs_write_at
  tnfs_write_at-IsWrittenAt f off src e small =
      write_loop-IsWrittenAt (length src) off src f e (omega arith) small
