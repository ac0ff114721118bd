-- ===== src/Tests/Framing.antt =====
-- Runs of the theorems on the loops of src/fdc/fdc.c, with input that is there at once.
use fdc_sds_pio.Prelude.{
  Bytes, Option, [], arith, codes, drop, false, length, length-drop, length-take, min, none, refl,
  some, suc, take, zero, ℕ, ◌%◌, ◌*◌, ◌++◌, ◌+◌, ◌/◌, ◌<◌, ◌^◌, ◌∷◌, ◌≡◌, ◌≤◌,
}
use fdc_sds_pio.Prelude.{
  Bytes, Option, [], arith, codes, drop, false, length, length-drop, length-take, min, none, refl,
  some, suc, take, zero, ℕ, ◌%◌, ◌*◌, ◌++◌, ◌+◌, ◌/◌, ◌<◌, ◌^◌, ◌∷◌, ◌≡◌, ◌≤◌,
}
use fdc_sds_pio.Fdc.Framing.{Driver, Recv, received, select_ready, tcp_recv, tcp_send, would_block}
use fdc_sds_pio.Fdc.Framing.Loop.{DriverLaws, IsFew, IsFewRead, IsRecv, IsSent}
use fdc_sds_pio.Fdc.Framing.Total.{tcp_recv-IsRecv, tcp_send-IsSent}

record Line : Type 0 where
  clock : ℕ
  inbox : Bytes

abbrev take_some : ℕ → Bytes → ℕ → Recv × Line
take_some zero inbox t = (would_block, record { clock = t + 1; inbox = inbox })
take_some (suc n) [] t = (would_block, record { clock = t + 1; inbox = [] })
take_some (suc n) (b ∷ bs) t = (received b (take n bs), record { clock = t; inbox = drop n bs })

abbrev read_some : ℕ → Bytes → ℕ → Option Bytes × Line
read_some zero inbox t = (none, record { clock = t; inbox = inbox })
read_some (suc n) [] t = (none, record { clock = t; inbox = [] })
read_some (suc n) (b ∷ bs) t = (some (b ∷ take n bs), record { clock = t; inbox = drop n bs })

abbrev line_link : Driver Line
line_link = record {
  now = λ e. e.clock;
  select = λ fd us e. (select_ready, e);
  recv = λ fd n e. take_some n e.inbox e.clock;
  recv_now = λ fd n e. take_some n e.inbox e.clock;
  send = λ fd bytes e. (length bytes, e);
  ticks = λ e. e.clock % 2 ^ 32;
  ticks_of = λ ms. ms / 10;
  uart_read_bytes = λ n ticks e. read_some n e.inbox e.clock;
}

take-IsFew : (n : ℕ) (inbox : Bytes) (t : ℕ) → IsFew n (take_some n inbox t).0
take-IsFew zero inbox t = tt
take-IsFew (suc n) [] t = tt
take-IsFew (suc n) (b ∷ bs) t = omega (arith, length-take n bs)

take_clock : (n : ℕ) (inbox : Bytes) (t : ℕ) → t ≤ ((take_some n inbox t).1).clock
take_clock zero inbox t = omega arith
take_clock (suc n) [] t = omega arith
take_clock (suc n) (b ∷ bs) t = omega arith

take_blocks :
    (n : ℕ) (inbox : Bytes) (t : ℕ)
    → (take_some n inbox t).0 ≡ would_block
    → t < ((take_some n inbox t).1).clock
take_blocks zero inbox t h = omega arith
take_blocks (suc n) [] t h = omega arith
take_blocks (suc n) (b ∷ bs) t h = absurd (cc)

take_drains :
    (n : ℕ) (inbox : Bytes) (t b : ℕ) (bs : Bytes)
    → (take_some n inbox t).0 ≡ received b bs
    → length ((take_some n inbox t).1).inbox < length inbox
take_drains zero inbox t b bs h = absurd (cc)
take_drains (suc n) [] t b bs h = absurd (cc)
take_drains (suc n) (c ∷ cs) t b bs h = omega (arith, length-drop n cs)

read-IsFewRead : (n : ℕ) (inbox : Bytes) (t : ℕ) → IsFewRead n (read_some n inbox t).0
read-IsFewRead zero inbox t = tt
read-IsFewRead (suc n) [] t = tt
read-IsFewRead (suc n) (b ∷ bs) t = omega (arith, length-take n bs)

read_waits : {A : Type 0} (n : ℕ) (inbox : Bytes) (t : ℕ) → (read_some n inbox t).0 ≡ some [] → A
read_waits zero inbox t h = absurd (cc)
read_waits (suc n) [] t h = absurd (cc)
read_waits (suc n) (b ∷ bs) t h = absurd (cc)

line_laws : DriverLaws line_link
line_laws = record {
  recv_few = λ fd n e. take-IsFew n e.inbox e.clock;
  select_clock = λ fd us e. omega arith;
  recv_clock = λ fd n e. take_clock n e.inbox e.clock;
  recv_blocks = λ fd n e h. take_blocks n e.inbox e.clock h;
  uart_few = λ n ticks e. read-IsFewRead n e.inbox e.clock;
  uart_waits = λ n deadline e h. read_waits n e.inbox e.clock h;
}

abbrev line : Line
line = record { clock = 5; inbox = 1 ∷ 2 ∷ 3 ∷ [] }

tcp_recv-IsRecv_example : IsRecv 2 (tcp_recv line_link (2 + 1 * 1000 + 2) 4 false 2 1 line)
tcp_recv-IsRecv_example = tcp_recv-IsRecv line_link line_laws 4 false 2 1 line

-- A socket that takes three bytes at a time, over what has gone out.
abbrev slow_link : Driver Bytes
slow_link = record {
  now = λ e. 0;
  select = λ fd us e. (select_ready, e);
  recv = λ fd n e. (would_block, e);
  recv_now = λ fd n e. (would_block, e);
  send = λ fd bytes e. (min 3 (length bytes), e ++ take (min 3 (length bytes)) bytes);
  ticks = λ e. 0;
  ticks_of = λ ms. ms / 10;
  uart_read_bytes = λ n ticks e. (none, e);
}

tcp_send-IsSent_example :
    IsSent
      (λ e. e)
      []
      (codes "WSTA")
      (tcp_send slow_link (length (codes "WSTA") + 2) 4 (codes "WSTA") false [])
tcp_send-IsSent_example =
    tcp_send-IsSent slow_link (λ e. e) (λ fd bytes e. refl) 4 (codes "WSTA") false []
