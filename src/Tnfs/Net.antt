-- ===== src/Tnfs/Net.antt =====
-- What src/net/tnfs.c calls outside itself, over a state `E` of the network and the heap: lwIP,
-- FreeRTOS and the C library.
use fdc_sds_pio.Prelude.{Bool, Bytes, Option, inl, inr, ℕ, ◌⊎◌}
use fdc_sds_pio.Esp.{Esp}

pub record Net (E : Type 0) : Type 0 where
  -- `getaddrinfo`: an address for this host, port and kind of socket (true for a stream).
  pub getaddrinfo : Bytes → ℕ → Bool → E → Option ℕ × E
  pub freeaddrinfo : ℕ → E → E
  -- `socket`, with the two timeouts in milliseconds; none for a negative result.
  pub socket : ℕ → ℕ → E → Option ℕ × E
  -- Whether the result is 0.
  pub connect : ℕ → ℕ → E → Bool × E
  pub close : ℕ → E → E
  -- Whether the result is not negative.
  pub send : ℕ → Bytes → E → Bool × E
  -- At most so many bytes; none for a negative result.
  pub recv : ℕ → ℕ → E → Option Bytes × E
  -- How many times recv can still give something before it times out; it only bounds a loop.
  pub queued : ℕ → E → ℕ
  pub delay_ms : ℕ → E → E
  -- `calloc` gives an object.
  pub calloc : E → Bool × E
  pub free : E → E

-- A value or an error, with the state.
abbrev pub Ret : Type 0 → Type 0 → Type 0
Ret E A = (A ⊎ Esp) × E

unfoldable pub then_do : {E A B : Type 0} → Ret E A → (A → E → Ret E B) → Ret E B
then_do (inr err, e) next = (inr err, e)
then_do (inl a, e) next = next a e
