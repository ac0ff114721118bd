-- ===== src/Protocol/Checksum.antt =====
-- include/protocol.h: the checksum of a block and its little-endian words.
use fdc_sds_pio.Prelude.{
  ==_iff, Bytes, IsBytes, [], arith, bit_or_bytes, get_or, length, refl, set, suc, sym, take, true,
  zero, ℕ, ◌%◌, ◌*◌, ◌+◌, ◌/◌, ◌<◌, ◌^◌, ◌∙◌, ◌∷◌, ◌≡◌,
}
use fdc_sds_pio.Protocol.{
  block_finalize, block_len, block_valid, checksum16, checksum_from, read_le16, write_le16,
}

abbrev pub sum : Bytes → ℕ
sum [] = 0
sum (b ∷ bs) = b + sum bs

pub checksum_from-sum :
    (acc : ℕ) (bs : Bytes) → checksum_from acc bs % 2 ^ 16 ≡ (acc + sum bs) % 2 ^ 16
unfolding checksum_from
checksum_from-sum acc [] = omega arith
checksum_from-sum acc (b ∷ bs) = omega (arith, checksum_from-sum ((acc + b) % 2 ^ 16) bs)

pub checksum_from-lt : (acc : ℕ) (bs : Bytes) → acc < 2 ^ 16 → checksum_from acc bs < 2 ^ 16
unfolding checksum_from
checksum_from-lt acc [] h = h
checksum_from-lt acc (b ∷ bs) h = checksum_from-lt ((acc + b) % 2 ^ 16) bs (omega arith)

pub checksum16-lt : (bs : Bytes) → checksum16 bs < 2 ^ 16
unfolding checksum16
checksum16-lt bs = checksum_from-lt 0 bs (omega arith)

-- The checksum is the sum of the bytes, modulo 2 ^ 16, however long the payload is.
pub checksum16-sum : (bs : Bytes) → checksum16 bs ≡ sum bs % 2 ^ 16
unfolding checksum16
checksum16-sum bs = omega (arith, checksum_from-sum 0 bs, checksum_from-lt 0 bs)

pub get_or-lt : (p : Bytes) (i : ℕ) → IsBytes p → get_or p i 0 < 256
get_or-lt [] i h = omega arith
get_or-lt (x ∷ p) zero h = h.0
get_or-lt (x ∷ p) (suc i) h = get_or-lt p i h.1

-- The word at an offset of a block of bytes, as arithmetic.
pub read_le16-bytes :
    (p : Bytes) (off : ℕ)
    → IsBytes p
    → read_le16 p off ≡ get_or p off 0 + get_or p (suc off) 0 * 256
unfolding read_le16
read_le16-bytes p off h = omega (
  arith,
  get_or-lt p off h,
  get_or-lt p (suc off) h,
  bit_or_bytes (get_or p off 0) (get_or p (suc off) 0) (get_or-lt p off h)
      (get_or-lt p (suc off) h),
)

pub get_or-set_self : (p : Bytes) (i v : ℕ) → i < length p → get_or (set p i v) i 0 ≡ v
get_or-set_self [] i v h = elim h [ ]
get_or-set_self (x ∷ p) zero v h = refl
get_or-set_self (x ∷ p) (suc i) v h = get_or-set_self p i v (omega arith)

get_or-set-suc : (p : Bytes) (i v : ℕ) → get_or (set p (suc i) v) i 0 ≡ get_or p i 0
get_or-set-suc [] i v = refl
get_or-set-suc (x ∷ p) zero v = refl
get_or-set-suc (x ∷ p) (suc i) v = get_or-set-suc p i v

pub length-set : (p : Bytes) (i v : ℕ) → length (set p i v) ≡ length p
length-set [] i v = refl
length-set (x ∷ p) zero v = refl
length-set (x ∷ p) (suc i) v = omega (arith, length-set p i v)

pub set-IsBytes : (p : Bytes) (i v : ℕ) → v < 256 → IsBytes p → IsBytes (set p i v)
set-IsBytes [] i v h b = tt
set-IsBytes (x ∷ p) zero v h b = (h, b.1)
set-IsBytes (x ∷ p) (suc i) v h b = (b.0, set-IsBytes p i v h b.1)

pub write_le16-IsBytes : (p : Bytes) (off v : ℕ) → IsBytes p → IsBytes (write_le16 p off v)
unfolding write_le16
write_le16-IsBytes p off v h =
    set-IsBytes (set p off (v % 2 ^ 8)) (suc off) (v / 2 ^ 8 % 2 ^ 8) (omega arith)
      (set-IsBytes p off (v % 2 ^ 8) (omega arith) h)

-- A word that is written at an offset inside a block is the word that is read there.
pub read_le16-write_le16 :
    (p : Bytes) (off v : ℕ)
    → IsBytes p
    → suc off < length p
    → v < 2 ^ 16
    → read_le16 (write_le16 p off v) off ≡ v
read_le16-write_le16 p off v b h k =
    read_le16-bytes (write_le16 p off v) off (write_le16-IsBytes p off v b)
    ∙ unfold write_le16 in
      omega (
        arith,
        get_or-set-suc (set p off (v % 2 ^ 8)) off (v / 2 ^ 8 % 2 ^ 8),
        get_or-set_self p off (v % 2 ^ 8) (omega arith),
        get_or-set_self (set p off (v % 2 ^ 8)) (suc off) (v / 2 ^ 8 % 2 ^ 8)
            (omega (arith, length-set p off (v % 2 ^ 8))),
      )

pub take-set : (n i v : ℕ) (p : Bytes) → n < suc i → take n (set p i v) ≡ take n p
take-set zero i v p h = refl
take-set (suc n) i v [] h = refl
take-set (suc n) zero v (x ∷ p) h = absurd (omega arith)
take-set (suc n) (suc i) v (x ∷ p) h = ap (◌∷◌ x) (take-set n i v p (omega arith))
  where
    ap : {a b : Bytes} (f : Bytes → Bytes) → a ≡ b → f a ≡ f b
    ap f e = λ j. f (e j)

take-write_le16 : (n v : ℕ) (p : Bytes) → take n (write_le16 p n v) ≡ take n p
unfolding write_le16
take-write_le16 n v p =
    take-set n (suc n) (v / 2 ^ 8 % 2 ^ 8) (set p n (v % 2 ^ 8)) (omega arith)
    ∙ take-set n n (v % 2 ^ 8) p (omega arith)

-- Every block of ten bytes that `fdc_block_finalize` has closed passes `fdc_block_valid`, and its
-- first eight bytes are those that it had.
pub block_valid-block_finalize :
    (block : Bytes)
    → IsBytes block
    → length block ≡ block_len
    → (block_valid (block_finalize block) ≡ true) × (take 8 (block_finalize block) ≡ take 8 block)
unfolding block_valid block_finalize
block_valid-block_finalize block b h =
    let c : ℕ = checksum16 (take 8 block) in
    let same : take 8 (write_le16 block 8 c) ≡ take 8 block = take-write_le16 8 c block in
    (
      (==_iff _ _).1 (
          read_le16-write_le16 block 8 c b (omega arith) (checksum16-lt (take 8 block))
          ∙ (λ i. checksum16 (sym same i))),
      same,
    )
