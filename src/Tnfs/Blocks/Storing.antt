-- ===== src/Tnfs/Blocks/Storing.antt =====
-- src/net/tnfs.c: what the protocol says of a server, for the writes of an open file.
use fdc_sds_pio.Prelude.{
  Bytes, [], ap, append_assoc, append_nil, arith, drop, length, length-take, refl, some, suc, sym,
  take, zero, ℕ, ◌++◌, ◌+◌, ◌<◌, ◌∙◌, ◌∷◌, ◌≡◌, ◌≤◌,
}
use fdc_sds_pio.Esp.{esp_ok}
use fdc_sds_pio.Tnfs.Net.{Net}
use fdc_sds_pio.Tnfs.Status.{st_ok}
use fdc_sds_pio.Tnfs.Client.{File, status, tnfs_command}
use fdc_sds_pio.Tnfs.Blocks.{put_of}
use fdc_sds_pio.Tnfs.Blocks.Serving.{FileServer, count, drop_more}
use fdc_sds_pio.Tnfs.Proto.{io_chunk, wr16}
use fdc_sds_pio.Tnfs.Cmd.{cmd_write}

-- `file` with `src` written over it at `off`.
abbrev pub splice : ℕ → Bytes → Bytes → Bytes
splice off src file = take off file ++ src ++ drop (off + length src) file

take_front : (n : ℕ) (xs ys : Bytes) → length xs ≡ n → take n (xs ++ ys) ≡ xs
take_front zero [] ys h = refl
take_front (suc n) [] ys h = absurd (omega (arith, h))
take_front zero (x ∷ xs) ys h = absurd (omega (arith, h))
take_front (suc n) (x ∷ xs) ys h = ap (◌∷◌ x) (take_front n xs ys (omega (arith, h)))

drop_front : (n : ℕ) (xs ys : Bytes) → length xs ≡ n → drop n (xs ++ ys) ≡ ys
drop_front zero [] ys h = refl
drop_front (suc n) [] ys h = absurd (omega (arith, h))
drop_front zero (x ∷ xs) ys h = absurd (omega (arith, h))
drop_front (suc n) (x ∷ xs) ys h = drop_front n xs ys (omega (arith, h))

length-append : (xs ys : Bytes) → length (xs ++ ys) ≡ length xs + length ys
length-append [] ys = omega arith
length-append (x ∷ xs) ys = omega (arith, length-append xs ys)

pub take-drop : (n : ℕ) (xs : Bytes) → take n xs ++ drop n xs ≡ xs
take-drop zero xs = refl
take-drop (suc n) [] = refl
take-drop (suc n) (x ∷ xs) = ap (◌∷◌ x) (take-drop n xs)

pub take-take : (n m : ℕ) (xs : Bytes) → n ≤ m → take n (take m xs) ≡ take n xs
take-take zero m xs h = refl
take-take (suc n) zero xs h = absurd (omega (arith, h))
take-take (suc n) (suc m) [] h = refl
take-take (suc n) (suc m) (x ∷ xs) h = ap (◌∷◌ x) (take-take n m xs (omega (arith, h)))

pub splice_nothing : (off : ℕ) (file : Bytes) → splice off [] file ≡ file
splice_nothing off file =
    ap (λ (xs : Bytes). xs ++ drop (off + 0) file) (append_nil (take off file))
    ∙ ap (λ (n : ℕ). take off file ++ drop n file) (omega arith)
    ∙ take-drop off file

pub length-splice :
    (off : ℕ) (src file : Bytes)
    → off ≤ length file
    → off + length src ≤ length (splice off src file)
length-splice off src file h =
    let tail = drop (off + length src) file in
    omega (
      arith,
      h,
      length-append (take off file ++ src) tail,
      length-append (take off file) src,
      length-take off file,
    )

-- Two writes, the second behind the first.
pub splice_more :
    (off : ℕ) (a b file : Bytes)
    → off ≤ length file
    → splice (off + length a) b (splice off a file) ≡ splice off (a ++ b) file
splice_more off a b file h =
    let front = take off file ++ a in
    let tail = drop (off + length a) file in
    let size : length front ≡ off + length a =
      omega (arith, h, length-append (take off file) a, length-take off file) in
    let kept : take (off + length a) (front ++ tail) ≡ front =
      take_front (off + length a) front tail size in
    let rest : drop (off + length a + length b) (front ++ tail)
        ≡ drop (off + length (a ++ b)) file =
      sym (drop_more (off + length a) (length b) (front ++ tail))
      ∙ ap (λ (xs : Bytes). drop (length b) xs) (drop_front (off + length a) front tail size)
      ∙ drop_more (off + length a) (length b) file
      ∙ ap (λ (n : ℕ). drop n file) (omega (arith, length-append a b)) in
    let end = drop (off + length (a ++ b)) file in
    ap (λ (xs : Bytes). xs ++ b ++ drop (off + length a + length b) (front ++ tail)) kept
    ∙ ap (λ (xs : Bytes). front ++ b ++ xs) rest
    ∙ ap (λ (xs : Bytes). xs ++ end) (append_assoc (take off file) a b)

-- What the protocol says of a server's writes: a WRITE that is answered with TNFS_OK has put as many
-- of the bytes at the place as its count says, and the place is behind them.
pub record WriteServer {E : Type 0} (net : Net E) (srv : FileServer net) : Type 0 where
  pub write_stores :
      (f : File) (want : ℕ) (src : Bytes) (e : E)
      → length src ≡ want
      → want ≤ io_chunk
      → let r = tnfs_command net f cmd_write (f.fd ∷ wr16 want ++ src) e in
        r.0 ≡ esp_ok
        → status r.1 ≡ st_ok
        → 7 ≤ length r.1.resp
        → count r.1 ≤ want
        → srv.place e ≤ length (srv.file e)
        → (srv.file r.2 ≡ splice (srv.place e) (take (count r.1) src) (srv.file e))
          × (srv.place r.2 ≡ srv.place e + count r.1)

pub put_of-received :
    (want : ℕ) (f : File) (put : ℕ)
    → put_of want f ≡ some put
    → (status f ≡ st_ok) × (7 ≤ length f.resp) × (count f ≡ put) × (0 < put) × (put ≤ want)
unfolding put_of
put_of-received want f put h = ground (arith, h)
