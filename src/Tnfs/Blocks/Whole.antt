-- ===== src/Tnfs/Blocks/Whole.antt =====
-- src/net/tnfs.c: the session and the buffer after a read.
use fdc_sds_pio.Tnfs.Client.Answer.{kept_fields, tnfs_command-IsAnswer}
use fdc_sds_pio.Tnfs.Status.{st_eof, st_ok}
use fdc_sds_pio.Prelude.{
  Bool, Bool-cases, Bytes, Option, [], ap, arith, drop, false, inl, inr, length, length-append,
  length-drop, length-take, ltb, min, none, not, refl, some, suc, take, true, zero, ℕ, ◌%◌, ◌&&◌,
  ◌++◌, ◌+◌, ◌-◌, ◌<◌, ◌==◌, ◌^◌, ◌||◌, ◌∙◌, ◌∷◌, ◌≡◌, ◌≢◌, ◌≤◌,
}
use fdc_sds_pio.Esp.{Esp, esp_fail, esp_ok, is_ok}
use fdc_sds_pio.Tnfs.Net.{Net}
use fdc_sds_pio.Tnfs.Framing.Pieces.{NetLaws, some_eq}
use fdc_sds_pio.Tnfs.Client.{Called, File, seek_answered, status, tnfs_command, tnfs_seek}
use fdc_sds_pio.Tnfs.Blocks.{
  ReadAt, data_of, lost, read_answered, read_data, read_loop, read_seeked, tnfs_read_at,
}
use fdc_sds_pio.Tnfs.Proto.{io_chunk, rd16, wr16, wr32}
use fdc_sds_pio.Tnfs.Cmd.{cmd_lseek, cmd_read}

-- The session knows where the server is in the file, or it knows that it does not.
abbrev pub IsAt : ℕ → Esp → File → Type 0
IsAt off err f =
    (err ≡ esp_ok → (f.pos_valid ≡ true) × (f.pos ≡ off)) × (err ≢ esp_ok → f.pos_valid ≡ false)

abbrev pub Seeked : {E : Type 0} → ℕ → Called E → Type 0
Seeked off (err, f, e) = IsAt off err f

pub is_ok_lem : (err : Esp) → is_ok err ≡ false → err ≢ esp_ok
is_ok_lem err h e = absurd (cc (h, ap is_ok e))

pub is_ok_eq : (err : Esp) → is_ok err ≡ true → err ≡ esp_ok
is_ok_eq esp_ok h = refl
is_ok_eq _ h = absurd (cc)

seek_answered-Seeked : {E : Type 0} (off : ℕ) (r : Called E) → Seeked off (seek_answered off r)
unfolding seek_answered
seek_answered-Seeked off (err, f, e) = elim (Bool-cases (is_ok err)) [
  | inr q ↦ rw q ((λ h. absurd (is_ok_lem err q h)), λ h. refl)
  | inl q ↦ rw q (elim (Bool-cases (status f == st_ok)) [
    | inl r ↦ rw r ((λ h. (refl, refl)), λ h. absurd (h refl))
    | inr r ↦ rw r ((λ h. absurd (cc)), λ h. refl)
  ])
]

module _ {E : Type 0} (net : Net E) where
  pub tnfs_seek-Seeked : (f : File) (off : ℕ) (e : E) → Seeked off (tnfs_seek net f off e)
  unfolding tnfs_seek
  tnfs_seek-Seeked f off e = elim (Bool-cases (f.pos_valid && f.pos == off)) [
    | inl q ↦ rw q ((λ h. (ground (arith, q), ground (arith, q))), λ h. absurd (h refl))
    | inr q ↦ rw q (seek_answered-Seeked off (tnfs_command net f cmd_lseek (f.fd ∷ 0 ∷ wr32 off) e))
  ]

pub data_of-length :
    (want : ℕ) (f : File) (bytes : Bytes)
    → data_of want f ≡ some bytes
    → (0 < length bytes) × (length bytes ≤ want)
unfolding data_of
data_of-length want f bytes h =
    let got = rd16 (drop 5 f.resp) in
    elim (Bool-cases (not (status f == st_ok || status f == st_eof) || ltb (length f.resp) 7)) [
      | inl q ↦ absurd (ground (arith, q, h))
      | inr q ↦ elim (Bool-cases (got == 0 || ltb want got || ltb (length f.resp) (7 + got))) [
        | inl r ↦ absurd (ground (arith, q, r, h))
        | inr r ↦
            let same : take got (drop 7 f.resp) ≡ bytes = some_eq _ _ (rw (q, r) at h) in
            let size : length (take got (drop 7 f.resp)) ≡ got =
              ground (arith, r, length-take got (drop 7 f.resp), length-drop 7 f.resp) in
            rw (← same, size) (ground (arith, r), ground (arith, r))
      ]
    ]

pub kept_valid : (f g : File) → kept_fields f ≡ kept_fields g → f.pos_valid ≡ g.pos_valid
kept_valid f g h = ap (λ (p : Bool × ℕ × ℕ × ℕ × ℕ × ℕ × Bool). p.6) h

pub kept_pos : (f g : File) → kept_fields f ≡ kept_fields g → f.pos ≡ g.pos
kept_pos f g h = ap (λ (p : Bool × ℕ × ℕ × ℕ × ℕ × ℕ × Bool). p.5) h

-- A read of `len` bytes at `off`, with `dst` in the buffer before it.
pub record IsReadAt {E : Type 0} (off len : ℕ) (dst : Bytes) (f : File) (r : ReadAt E)
    : Type 0 where
  -- It never puts more into the buffer than was asked for, and on success exactly that.
  pub bounded : length r.1 ≤ length dst + len
  pub whole : r.0 ≡ esp_ok → length r.1 ≡ length dst + len
  -- On success the position is behind what was read, after an error it is not trusted.
  pub position : r.0 ≡ esp_ok → 0 < len → (r.2.pos_valid ≡ true) × (r.2.pos ≡ (off + len) % 2 ^ 32)
  pub nothing : len ≡ 0 → (r.0 ≡ esp_ok) × (r.2 ≡ f)
  pub untrusted : r.0 ≢ esp_ok → r.2.pos_valid ≡ false

module _ {E : Type 0} (net : Net E) (laws : NetLaws net) where
  -- The read ends in an error.
  stopped :
      (off len : ℕ) (dst : Bytes) (f g : File) (err : Esp) (e : E)
      → err ≢ esp_ok
      → g.pos_valid ≡ false
      → 0 < len
      → IsReadAt off len dst f (err, dst, g, e)
  stopped off len dst f g err e n u l = record {
    bounded = omega arith;
    whole = λ h. absurd (n h);
    position = λ h. absurd (n h);
    nothing = λ h. absurd (omega (arith, l, h));
    untrusted = λ h. u;
  }

  -- What is left is read behind what a reply has given.
  continued :
      (off len got : ℕ) (dst bytes : Bytes) (f g : File) (r : ReadAt E)
      → length bytes ≡ got
      → 0 < got
      → got ≤ len
      → g.pos_valid ≡ true
      → g.pos ≡ (off + got) % 2 ^ 32
      → IsReadAt ((off + got) % 2 ^ 32) (len - got) (dst ++ bytes) g r
      → IsReadAt off len dst f r
  continued off len got dst bytes f g r size some_got below valid at_pos k =
      let both = length-append dst bytes in
      record {
        bounded = omega (arith, k.bounded, both);
        whole = λ h. omega (arith, k.whole h, both);
        position = λ h _. elim (Bool-cases (len - got == 0)) [
          | inl q ↦
              let same = (k.nothing (ground (arith, q))).1 in
              let done : got ≡ len = ground (arith, q) in
              (
                ap (λ (x : File). x.pos_valid) same ∙ valid,
                ap (λ (x : File). x.pos) same ∙ rw done at at_pos,
              )
          | inr q ↦ let more = k.position h (ground (arith, q)) in (more.0, omega (arith, more.1))
        ];
        nothing = λ h. absurd (omega (arith, h));
        untrusted = k.untrusted;
      }

  read_data-IsReadAt :
      (rest : ℕ → ℕ → Bytes → File → E → ReadAt E) (off len : ℕ) (dst : Bytes)
      (got_data : Option Bytes) (f g : File) (e : E)
      → ((off1 len1 : ℕ) (dst1 : Bytes) (g1 : File) (e1 : E)
          → len1 < len
          → IsReadAt off1 len1 dst1 g1 (rest off1 len1 dst1 g1 e1))
      → ((bytes : Bytes)
          → got_data ≡ some bytes
          → (0 < length bytes) × (length bytes ≤ min len io_chunk))
      → 0 < len
      → g.pos_valid ≡ true
      → g.pos ≡ off
      → IsReadAt off len dst f (read_data rest off len dst got_data g e)
  unfolding read_data
  read_data-IsReadAt rest off len dst none f g e ih size some_len valid at_off =
      stopped off len dst f (lost g) esp_fail e (λ h. absurd (cc)) refl some_len
  read_data-IsReadAt rest off len dst (some bytes) f g e ih size some_len valid at_off =
      let (positive, small) = size bytes refl in
      let got = length bytes in
      let g1 = record g { pos = (g.pos + got) % 2 ^ 32 } in
      continued off len got dst bytes f g1
        (rest ((off + got) % 2 ^ 32) (len - got) (dst ++ bytes) g1 e) refl positive (omega arith)
        valid (rw at_off refl)
        (ih ((off + got) % 2 ^ 32) (len - got) (dst ++ bytes) g1 e (omega arith))

  -- After the reply.
  read_answered-IsReadAt :
      (rest : ℕ → ℕ → Bytes → File → E → ReadAt E) (off len : ℕ) (dst : Bytes) (f : File)
      (r : Called E)
      → ((off1 len1 : ℕ) (dst1 : Bytes) (g1 : File) (e1 : E)
          → len1 < len
          → IsReadAt off1 len1 dst1 g1 (rest off1 len1 dst1 g1 e1))
      → 0 < len
      → r.1.pos_valid ≡ true
      → r.1.pos ≡ off
      → IsReadAt off len dst f (read_answered rest off len dst r)
  unfolding read_answered
  read_answered-IsReadAt rest off len dst f (err, g, e) ih some_len valid at_off =
      elim (Bool-cases (is_ok err)) [
        | inr q ↦ rw q (stopped off len dst f (lost g) err e (is_ok_lem err q) refl some_len)
        | inl q ↦ rw q (
            read_data-IsReadAt rest off len dst (data_of (min len io_chunk) g) f g e ih
              (λ bytes h. data_of-length (min len io_chunk) g bytes h) some_len valid at_off)
      ]

  read_seeked-IsReadAt :
      (rest : ℕ → ℕ → Bytes → File → E → ReadAt E) (off len : ℕ) (dst : Bytes) (f : File)
      (r : Called E)
      → ((off1 len1 : ℕ) (dst1 : Bytes) (g1 : File) (e1 : E)
          → len1 < len
          → IsReadAt off1 len1 dst1 g1 (rest off1 len1 dst1 g1 e1))
      → 0 < len
      → Seeked off r
      → IsReadAt off len dst f (read_seeked net rest off len dst r)
  unfolding read_seeked
  read_seeked-IsReadAt rest off len dst f (err, g, e) ih some_len s =
      elim (Bool-cases (is_ok err)) [
        | inr q ↦
            rw q (stopped off len dst f g err e (is_ok_lem err q) (s.1 (is_ok_lem err q)) some_len)
        | inl q ↦
            let (valid, at_off) = s.0 (is_ok_eq err q) in
            let pl = g.fd ∷ wr16 (min len io_chunk) in
            let k = (tnfs_command-IsAnswer net laws g cmd_read pl e).kept in
            let g1 = (tnfs_command net g cmd_read pl e).1 in
            rw q (
              read_answered-IsReadAt rest off len dst f (tnfs_command net g cmd_read pl e) ih
                some_len (kept_valid g1 g k ∙ valid) (kept_pos g1 g k ∙ at_off))
      ]

  read_loop-IsReadAt :
      (n off len : ℕ) (dst : Bytes) (f : File) (e : E)
      → len ≤ n
      → IsReadAt off len dst f (read_loop net n off len dst f e)
  unfolding read_loop
  read_loop-IsReadAt n off zero dst f e l = record {
    bounded = omega arith;
    whole = λ h. omega arith;
    position = λ h z. absurd (omega (arith, z));
    nothing = λ h. (refl, refl);
    untrusted = λ h. absurd (h refl);
  }
  read_loop-IsReadAt zero off (suc len) dst f e l = absurd (omega arith)
  read_loop-IsReadAt (suc n) off (suc len) dst f e l =
      read_seeked-IsReadAt (read_loop net n) off (suc len) dst f (tnfs_seek net f off e)
        (λ off1 len1 dst1 g1 e1 h. read_loop-IsReadAt n off1 len1 dst1 g1 e1 (omega (arith, l, h)))
        (omega arith) (tnfs_seek-Seeked net f off e)

  -- tnfs_read_at, whatever the network does, puts at most `len` bytes into the buffer, and exactly
  -- that many where it succeeds; then the session has the position behind them. After an error the
  -- session does not trust its position, so that the next access seeks first. Its loop always ends.
  pub tnfs_read_at-IsReadAt :
      (f : File) (off len : ℕ) (e : E) → IsReadAt off len [] f (tnfs_read_at net f off len e)
  unfolding tnfs_read_at
  tnfs_read_at-IsReadAt f off len e = read_loop-IsReadAt len off len [] f e (omega arith)
