-- ===== src/Protocol/Corruption.antt =====
-- include/protocol.h: what the checksum of a block detects.
use fdc_sds_pio.Prelude.{
  Bytes, IsBytes, [], ap, arith, false, get_or, length, length-take, refl, set, suc, take, true,
  zero, ℕ, ◌+◌, ◌<◌, ◌∙◌, ◌∷◌, ◌≡◌, ◌≢◌,
}
use fdc_sds_pio.Protocol.{block_len, block_valid, checksum16, read_le16}
use fdc_sds_pio.Protocol.Checksum.{checksum16-sum, get_or-lt, read_le16-bytes, set-IsBytes, sum}

sum-set : (p : Bytes) (i v : ℕ) → i < length p → sum (set p i v) + get_or p i 0 ≡ sum p + v
sum-set [] i v h = elim h [ ]
sum-set (x ∷ p) zero v h = omega arith
sum-set (x ∷ p) (suc i) v h = omega (arith, sum-set p i v (omega arith))

get_or-set_lt : (p : Bytes) (i j v : ℕ) → i < j → get_or (set p i v) j 0 ≡ get_or p j 0
get_or-set_lt [] i j v h = refl
get_or-set_lt (x ∷ p) zero zero v h = absurd (omega arith)
get_or-set_lt (x ∷ p) zero (suc j) v h = refl
get_or-set_lt (x ∷ p) (suc i) zero v h = absurd (omega arith)
get_or-set_lt (x ∷ p) (suc i) (suc j) v h = get_or-set_lt p i j v (omega arith)

take-set_below : (n i v : ℕ) (p : Bytes) → i < n → take n (set p i v) ≡ set (take n p) i v
take-set_below zero i v p h = elim h [ ]
take-set_below (suc n) i v [] h = refl
take-set_below (suc n) zero v (x ∷ p) h = refl
take-set_below (suc n) (suc i) v (x ∷ p) h = ap (◌∷◌ x) (take-set_below n i v p (omega arith))

get_or-take : (n i : ℕ) (p : Bytes) → i < n → get_or (take n p) i 0 ≡ get_or p i 0
get_or-take zero i p h = elim h [ ]
get_or-take (suc n) i [] h = refl
get_or-take (suc n) zero (x ∷ p) h = refl
get_or-take (suc n) (suc i) (x ∷ p) h = get_or-take n i p (omega arith)

-- A byte of the payload that is changed to another byte changes the checksum.
pub checksum16-set :
    (p : Bytes) (i v : ℕ)
    → i < length p
    → get_or p i 0 < 256
    → v < 256
    → v ≢ get_or p i 0
    → checksum16 (set p i v) ≢ checksum16 p
checksum16-set p i v h old new ne e =
    omega (arith, sum-set p i v h, checksum16-sum (set p i v), checksum16-sum p)

-- A block that was valid is refused once any one of its first eight bytes is changed to another
-- byte.
pub block_valid-set :
    (block : Bytes) (i v : ℕ)
    → IsBytes block
    → length block ≡ block_len
    → i < 8
    → v < 256
    → v ≢ get_or block i 0
    → block_valid block ≡ true
    → block_valid (set block i v) ≡ false
unfolding block_valid
block_valid-set block i v b len lt vb ne ok =
    let same : read_le16 (set block i v) 8 ≡ read_le16 block 8 =
      read_le16-bytes (set block i v) 8 (set-IsBytes block i v vb b)
      ∙ omega (
        arith,
        get_or-set_lt block i 8 v lt,
        get_or-set_lt block i 9 v (omega arith),
        read_le16-bytes block 8 b,
      ) in
    let differ : checksum16 (set (take 8 block) i v) ≢ checksum16 (take 8 block) =
      checksum16-set (take 8 block) i v (omega (arith, length-take 8 block))
        (omega (arith, get_or-take 8 i block lt, get_or-lt block i b)) vb
        (λ e. ne (e ∙ get_or-take 8 i block lt)) in
    rw (take-set_below 8 i v block lt) (ground (arith, same, differ))
