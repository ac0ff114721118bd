-- ===== src/Fdc/Handlers/Blocks.antt =====
-- The blocks and checksums that src/fdc/fdc.c sends, against those that it accepts.
use fdc_sds_pio.Prelude.{
  Bytes, IsBytes, [], ap, arith, drop, get_or, length, length-append, length-drop, memcpy, refl,
  set, suc, sym, take, take-append_left, true, zero, ℕ, ◌%◌, ◌++◌, ◌/◌, ◌<◌, ◌^◌, ◌∙◌, ◌∷◌, ◌≡◌,
  ◌≢◌,
}
use fdc_sds_pio.Protocol.{
  block_len, block_valid, checksum16, off_word1, off_word2, read_le16, write_le16,
}
use fdc_sds_pio.Protocol.Checksum.{
  block_valid-block_finalize, checksum16-lt, length-set, read_le16-write_le16, take-set,
  write_le16-IsBytes,
}
use fdc_sds_pio.Fdc.Handlers.{build_block, checksum_bytes}

IsBytes-append : (p q : Bytes) → IsBytes p → IsBytes q → IsBytes (p ++ q)
IsBytes-append [] q b c = c
IsBytes-append (x ∷ p) q b c = (b.0, IsBytes-append p q b.1 c)

IsBytes-drop : (n : ℕ) (p : Bytes) → IsBytes p → IsBytes (drop n p)
IsBytes-drop zero p b = b
IsBytes-drop (suc n) [] b = b
IsBytes-drop (suc n) (x ∷ p) b = IsBytes-drop n p b.1

get_or-set_apart : (p : Bytes) (i j v : ℕ) → i ≢ j → get_or (set p i v) j 0 ≡ get_or p j 0
get_or-set_apart [] i j v h = refl
get_or-set_apart (x ∷ p) zero zero v h = absurd (h refl)
get_or-set_apart (x ∷ p) zero (suc j) v h = refl
get_or-set_apart (x ∷ p) (suc i) zero v h = refl
get_or-set_apart (x ∷ p) (suc i) (suc j) v h = get_or-set_apart p i j v (λ e. h (ap suc e))

get_or-take : (n i : ℕ) (p : Bytes) → i < n → get_or (take n p) i 0 ≡ get_or p i 0
get_or-take zero i p h = absurd (omega arith)
get_or-take (suc n) i [] h = refl
get_or-take (suc n) zero (x ∷ p) h = refl
get_or-take (suc n) (suc i) (x ∷ p) h = get_or-take n i p (omega arith)

take-take : (n m : ℕ) (p : Bytes) → n < suc m → take n (take m p) ≡ take n p
take-take zero m p h = refl
take-take (suc n) zero p h = absurd (omega arith)
take-take (suc n) (suc m) [] h = refl
take-take (suc n) (suc m) (x ∷ p) h = ap (◌∷◌ x) (take-take n m p (omega arith))

-- A word in front of the checksum is read from the first eight bytes.
read_le16-take : (off : ℕ) (p : Bytes) → suc off < 8 → read_le16 (take 8 p) off ≡ read_le16 p off
unfolding read_le16
read_le16-take off p h = rw (get_or-take 8 off p (omega arith), get_or-take 8 (suc off) p h) refl

-- Writing the second word leaves the first.
read_le16-write_le16_apart : (p : Bytes) (v : ℕ) → read_le16 (write_le16 p 6 v) 4 ≡ read_le16 p 4
unfolding read_le16 write_le16
read_le16-write_le16_apart p v =
    rw
      (
        get_or-set_apart (set p 6 (v % 2 ^ 8)) 7 4 (v / 2 ^ 8 % 2 ^ 8) (λ e. absurd (omega arith)),
        get_or-set_apart (set p 6 (v % 2 ^ 8)) 7 5 (v / 2 ^ 8 % 2 ^ 8) (λ e. absurd (omega arith)),
        get_or-set_apart p 6 4 (v % 2 ^ 8) (λ e. absurd (omega arith)),
        get_or-set_apart p 6 5 (v % 2 ^ 8) (λ e. absurd (omega arith)),
      )
      refl

length-write_le16 : (p : Bytes) (off v : ℕ) → length (write_le16 p off v) ≡ length p
unfolding write_le16
length-write_le16 p off v = rw (length-set, length-set) refl

take-write_le16_above : (p : Bytes) (off v : ℕ) → 3 < off → take 4 (write_le16 p off v) ≡ take 4 p
unfolding write_le16
take-write_le16_above p off v h =
    take-set 4 (suc off) _ _ (omega arith) ∙ take-set 4 off _ p (omega arith)

-- A block of response: the checksum test of the protocol accepts it, and a reader of the protocol
-- finds the mnemonic and the two words in it.
pub record IsBlock (block cmd : Bytes) (word1 word2 : ℕ) : Type 0 where
  pub accepted : block_valid block ≡ true
  pub mnemonic : take 4 block ≡ cmd
  pub first : read_le16 block off_word1 ≡ word1
  pub second : read_le16 block off_word2 ≡ word2

-- The block that the engine builds in its ten-byte buffer, from a four-byte mnemonic and two 16-bit
-- words, is accepted by the checksum test and reads back as that mnemonic and those words.
pub build_block-IsBlock :
    (resp cmd : Bytes) (word1 word2 : ℕ)
    → IsBytes resp
    → IsBytes cmd
    → length resp ≡ block_len
    → length cmd ≡ 4
    → word1 < 2 ^ 16
    → word2 < 2 ^ 16
    → IsBlock (build_block resp cmd word1 word2) cmd word1 word2
unfolding build_block
build_block-IsBlock resp cmd word1 word2 b c n m h k =
    let base : Bytes = memcpy resp cmd in
    let base_bytes : IsBytes base = IsBytes-append cmd _ c (IsBytes-drop (length cmd) resp b) in
    let base_length : length base ≡ 10 =
      omega (arith, length-append cmd (drop (length cmd) resp), length-drop (length cmd) resp) in
    let one : Bytes = write_le16 base 4 word1 in
    let one_bytes = write_le16-IsBytes base 4 word1 base_bytes in
    let two : Bytes = write_le16 one 6 word2 in
    let one_length : length one ≡ 10 = length-write_le16 base 4 word1 ∙ base_length in
    let facts =
      block_valid-block_finalize two (write_le16-IsBytes one 6 word2 one_bytes)
        (length-write_le16 one 6 word2 ∙ one_length) in
    record {
      accepted = facts.0;
      mnemonic =
          sym (take-take 4 8 _ (omega arith))
          ∙ ap (take 4) facts.1
          ∙ take-take 4 8 two (omega arith)
          ∙ take-write_le16_above one 6 word2 (omega arith)
          ∙ take-write_le16_above base 4 word1 (omega arith)
          ∙ take-append_left 4 cmd (drop (length cmd) resp) m;
      first =
          sym (read_le16-take 4 _ (omega arith))
          ∙ ap (λ p. read_le16 p 4) facts.1
          ∙ read_le16-take 4 two (omega arith)
          ∙ read_le16-write_le16_apart one word2
          ∙ read_le16-write_le16 base 4 word1 base_bytes (omega (arith, base_length)) h;
      second =
          sym (read_le16-take 6 _ (omega arith))
          ∙ ap (λ p. read_le16 p 6) facts.1
          ∙ read_le16-take 6 two (omega arith)
          ∙ read_le16-write_le16 one 6 word2 one_bytes (omega (arith, one_length)) k;
    }

-- The two bytes that READ sends after a payload are those that WRIT accepts for it.
pub checksum_bytes_accepted :
    (bytes : Bytes) → read_le16 (checksum_bytes bytes) 0 ≡ checksum16 bytes
unfolding checksum_bytes
checksum_bytes_accepted bytes =
    read_le16-write_le16 (0 ∷ 0 ∷ []) 0 (checksum16 bytes) (omega arith, (omega arith, tt))
      (omega arith) (checksum16-lt bytes)
