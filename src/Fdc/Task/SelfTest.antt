-- ===== src/Fdc/Task/SelfTest.antt =====
-- The loopback test of src/fdc/fdc.c, against the longest common prefix of what went out and came in.
use fdc_sds_pio.Fdc.State.{Fdc, Loopback}
use fdc_sds_pio.Fdc.Wire.{Wire}
use fdc_sds_pio.Prelude.{
  ==_iff, Bool-cases, Bytes, Option, [], arith, if◌then◌else◌, inl, inr, length, none, refl, some,
  suc, zero, ℕ, ◌+◌, ◌==◌, ◌↔◌, ◌∷◌, ◌≡◌, ◌≤◌,
}
use fdc_sds_pio.Fdc.Task.{compare_from, loopback_len, ramp, run_loopback}

-- The length of the longest common prefix.
abbrev pub common : Bytes → Bytes → ℕ
common [] rx = 0
common (b ∷ tx) [] = 0
common (b ∷ tx) (c ∷ rx) = if c == b then suc (common tx rx) else 0

-- The positions of `tx` at which `rx` has another byte or none.
abbrev pub different : Bytes → Bytes → ℕ
different [] rx = 0
different (b ∷ tx) [] = suc (length tx)
different (b ∷ tx) (c ∷ rx) = (if c == b then 0 else 1) + different tx rx

different-zero : (tx rx : Bytes) → length rx ≤ length tx → (different tx rx ≡ 0) ↔ (rx ≡ tx)
different-zero [] [] h = ground arith
different-zero [] (c ∷ rx) h = absurd (omega arith)
different-zero (b ∷ tx) [] h = ground arith
different-zero (b ∷ tx) (c ∷ rx) h = ground (arith, different-zero tx rx (omega arith), ==_iff c b)

different_none : (tx : Bytes) → different tx [] ≡ length tx
different_none [] = refl
different_none (b ∷ tx) = refl

compare_from-count : (i : ℕ) (tx rx : Bytes) → (compare_from i tx rx).0 ≡ different tx rx
unfolding compare_from
compare_from-count i [] rx = refl
compare_from-count i (b ∷ tx) [] =
    omega (arith, compare_from-count (i + 1) tx [], different_none tx)
compare_from-count i (b ∷ tx) (c ∷ rx) = elim (Bool-cases (c == b)) [
  | inl same ↦ rw same (omega (arith, compare_from-count (i + 1) tx rx))
  | inr wrong ↦ rw wrong (omega (arith, compare_from-count (i + 1) tx rx))
]

-- The index that is reported, with the number of bytes sent for none.
first_or : ℕ → Option ℕ → ℕ
first_or n o = elim o [ none ↦ n | some i ↦ i ]

compare_from-first :
    (n i : ℕ) (tx rx : Bytes)
    → n ≡ i + length tx
    → first_or n (compare_from i tx rx).1 ≡ i + common tx rx
unfolding compare_from first_or
compare_from-first n i [] rx h = omega (arith, h)
compare_from-first n i (b ∷ tx) [] h = omega arith
compare_from-first n i (b ∷ tx) (c ∷ rx) h = elim (Bool-cases (c == b)) [
  | inl same ↦ rw same (omega (arith, compare_from-first n (i + 1) tx rx (omega (arith, h))))
  | inr wrong ↦ rw wrong (omega arith)
]

length-ramp : (i n : ℕ) → length (ramp i n) ≡ n
unfolding ramp
length-ramp i zero = refl
length-ramp i (suc n) = omega (arith, length-ramp (i + 1) n)

-- What the self-test reports, by the bytes that came back.
pub record IsReport (r : Loopback) (rx : Bytes) : Type 0 where
  pub clean : (r.mismatches ≡ 0) ↔ (rx ≡ ramp 0 loopback_len)
  pub count : r.mismatches ≡ different (ramp 0 loopback_len) rx
  pub first : r.first_bad ≡ common (ramp 0 loopback_len) rx
  pub received : r.received ≡ length rx

-- What the driver gives after the pattern has gone out.
abbrev pub loopback_input : {E : Type 0} → Wire E → E → Bytes
loopback_input w e =
    (w.uart_recv loopback_len 1000
      (w.uart_wait_tx_done (w.uart_send (ramp 0 loopback_len) (w.uart_flush_input e)))).0

-- The self-test, where the driver gives at most the bytes asked for: no mismatch exactly when the
-- 256 bytes came back as they were sent, otherwise the number of positions that are wrong or missing;
-- the first bad index is the length of the common prefix, 256 for none.
pub run_loopback-IsReport :
    {E : Type 0} (w : Wire E) (f : Fdc) (e : E)
    → length (loopback_input w e) ≤ loopback_len
    → IsReport (((run_loopback w f e).0).lb_result) (loopback_input w e)
unfolding run_loopback first_or
run_loopback-IsReport w f e few =
    let rx = loopback_input w e in
    let tx : Bytes = ramp 0 loopback_len in
    let size : length tx ≡ 256 = length-ramp 0 loopback_len in
    record {
      clean =
          ground
            (arith, compare_from-count 0 tx rx, different-zero tx rx (omega (arith, few, size)));
      count = compare_from-count 0 tx rx;
      first = omega (arith, compare_from-first 256 0 tx rx (omega (arith, size)));
      received = refl;
    }
