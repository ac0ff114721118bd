-- ===== src/Fdc/Framing/Loop.antt =====
-- src/fdc/fdc.c: the receive loops and a measure of what they can still do.
use fdc_sds_pio.Prelude.{
  Bool, Bytes, Option, [], arith, length, none, refl, some, suc, true, zero, ℕ, ◌++◌, ◌<◌, ◌≡◌, ◌≤◌,
  ◌⊎◌,
}
use fdc_sds_pio.Prelude.{
  Bool, Bytes, Option, [], arith, length, none, refl, some, suc, true, zero, ℕ, ◌++◌, ◌<◌, ◌≡◌, ◌≤◌,
  ◌⊎◌,
}
use fdc_sds_pio.Fdc.Framing.{
  Driver, Recv, Turn, again, expired, follow, over, received, repeat, ticks_left, would_block,
}

abbrev pub IsFew : ℕ → Recv → Type 0
IsFew n (received b bs) = suc (length bs) ≤ n
IsFew n _ = Unit {0}

abbrev pub IsFewRead : ℕ → Option Bytes → Type 0
IsFewRead n none = Unit {0}
IsFewRead n (some bytes) = length bytes ≤ n

-- What the code relies on of the sockets and the UART driver: no call gives more than it was asked
-- to, the clock does not go back, and a call that has given nothing has taken time.
pub record DriverLaws {E : Type 0} (l : Driver E) : Type 0 where
  pub recv_few : (fd n : ℕ) (e : E) → IsFew n (l.recv fd n e).0
  pub select_clock : (fd us : ℕ) (e : E) → l.now e ≤ l.now (l.select fd us e).1
  pub recv_clock : (fd n : ℕ) (e : E) → l.now e ≤ l.now (l.recv fd n e).1
  pub recv_blocks :
      (fd n : ℕ) (e : E) → (l.recv fd n e).0 ≡ would_block → l.now e < l.now (l.recv fd n e).1
  pub uart_few : (n ticks : ℕ) (e : E) → IsFewRead n (l.uart_read_bytes n ticks e).0
  pub uart_waits :
      (n deadline : ℕ) (e : E)
      → (l.uart_read_bytes n (ticks_left deadline (l.ticks e)) e).0 ≡ some []
      → expired deadline (l.ticks (l.uart_read_bytes n (ticks_left deadline (l.ticks e)) e).1)
        ≡ true

-- A turn keeps to `need` bytes, and if it goes round again, a measure has gone down from `bound`.
abbrev pub IsDescent : {E : Type 0} → ℕ → (Bytes → Bool → E → ℕ) → ℕ → Turn E → Type 0
IsDescent need measure bound (over got dead e) = length got ≤ need
IsDescent need measure bound (again got dead e) = (length got ≤ need) × (measure got dead e < bound)

-- The loop has ended with at most `need` bytes.
pub IsRecv : {E : Type 0} → ℕ → Option (Bytes × Bool × E) → Type 0
IsRecv {E} need o = (r : Bytes × Bool × E) × (o ≡ some r) × (length (r.0) ≤ need)

-- The send loop has ended. What has gone out since `before` and what is left are the message; nothing
-- is left, or the client is marked dead.
unfoldable pub IsSent :
    {E : Type 0} → (E → Bytes) → Bytes → Bytes → Option (Bytes × Bool × E) → Type 0
IsSent {E} gone before bytes o =
    (r : Bytes × Bool × E) × (o ≡ some r)
    × (gone (r.2) ++ r.0 ≡ before ++ bytes)
    × ((r.0 ≡ []) ⊎ (r.1 ≡ true))

module _ {E : Type 0} (need : ℕ) (turn : Bytes → Bool → E → Turn E)
    (measure : Bytes → Bool → E → ℕ) where
  follow-IsRecv :
      (fuel : ℕ) (t : Turn E) (bound : ℕ)
      → bound < suc fuel
      → ((got : Bytes) (dead : Bool) (e : E)
          → measure got dead e < fuel
          → length got ≤ need
          → IsRecv need (repeat fuel turn got dead e))
      → IsDescent need measure bound t
      → IsRecv need (follow (repeat fuel turn) t)
  unfolding follow IsRecv
  follow-IsRecv fuel (over got dead e) bound h ih d = ((got, dead, e), refl, d)
  follow-IsRecv fuel (again got dead e) bound h ih d = ih got dead e (omega (arith, d.1, h)) d.0

  pub repeat-IsRecv :
      (step : (got : Bytes) (dead : Bool) (e : E)
        → length got ≤ need
        → IsDescent need measure (measure got dead e) (turn got dead e))
      (fuel : ℕ) (got : Bytes) (dead : Bool) (e : E)
      → measure got dead e < fuel
      → length got ≤ need
      → IsRecv need (repeat fuel turn got dead e)
  unfolding repeat
  repeat-IsRecv step zero got dead e h k = absurd (omega (arith, h))
  repeat-IsRecv step (suc fuel) got dead e h k =
      follow-IsRecv fuel (turn got dead e) (measure got dead e) h (repeat-IsRecv step fuel)
        (step got dead e k)
