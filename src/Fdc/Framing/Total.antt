-- ===== src/Fdc/Framing/Total.antt =====
-- src/fdc/fdc.c: how the receive and send loops end.
use fdc_sds_pio.Prelude.{
  ==_iff, Bool, Bool-cases, Bytes, Option, [], ap, append_assoc, append_nil, arith, drop, false,
  if◌then◌else◌, inl, inr, leb, length, length-append, length-drop, none, refl, some, suc, take,
  true, zero, ℕ, ◌%◌, ◌*◌, ◌++◌, ◌+◌, ◌-◌, ◌<◌, ◌==◌, ◌^◌, ◌||◌, ◌∙◌, ◌∷◌, ◌≡◌, ◌≤◌,
}
use fdc_sds_pio.Prelude.{
  ==_iff, Bool, Bool-cases, Bytes, Option, [], ap, append_assoc, append_nil, arith, drop, false,
  if◌then◌else◌, inl, inr, leb, length, length-append, length-drop, none, refl, some, suc, take,
  true, zero, ℕ, ◌%◌, ◌*◌, ◌++◌, ◌+◌, ◌-◌, ◌<◌, ◌==◌, ◌^◌, ◌||◌, ◌∙◌, ◌∷◌, ◌≡◌, ◌≤◌,
}
use fdc_sds_pio.Fdc.Framing.{
  Driver, Recv, Select, expired, flush_turn, over, peer_closed, received, recv_failed, recv_turn,
  select_failed, select_ready, select_timeout, select_turn, tcp_flush_input, tcp_recv, tcp_send,
  tcp_turn, ticks_left, uart_recv, uart_recv_turn, uart_turn, would_block,
}
use fdc_sds_pio.Fdc.Framing.Loop.{
  DriverLaws, IsDescent, IsFew, IsFewRead, IsRecv, IsSent, repeat-IsRecv,
}

module _ {E : Type 0} (l : Driver E) (laws : DriverLaws l) where
  -- What a socket can still do before the deadline.
  tcp_measure : ℕ → ℕ → Bytes → Bool → E → ℕ
  tcp_measure need deadline got dead e =
      if dead then 0 else (need - length got) + (deadline - l.now e) + 1

  recv_turn-IsDescent :
      (need deadline : ℕ) (got : Bytes) (r : Recv × E) (e : E)
      → length got < need
      → IsFew (need - length got) (r.0)
      → l.now e ≤ l.now (r.1)
      → (r.0 ≡ would_block → l.now e < l.now (r.1))
      → l.now e < deadline
      → IsDescent need
          (tcp_measure need deadline)
          ((need - length got) + (deadline - l.now e) + 1)
          (recv_turn got r)
  unfolding recv_turn tcp_measure
  recv_turn-IsDescent need deadline got (received b bs, w) e lt f clock blocks early = (
    omega (arith, length-append got (b ∷ bs), f, lt),
    omega (arith, length-append got (b ∷ bs), f, lt, clock),
  )
  recv_turn-IsDescent need deadline got (peer_closed, w) e lt f clock blocks early =
      (omega (arith, lt), omega arith)
  recv_turn-IsDescent need deadline got (recv_failed, w) e lt f clock blocks early =
      (omega (arith, lt), omega arith)
  recv_turn-IsDescent need deadline got (would_block, w) e lt f clock blocks early =
      (omega (arith, lt), omega (arith, blocks refl, early))

  select_turn-IsDescent :
      (fd need deadline : ℕ) (got : Bytes) (r : Select × E) (e : E)
      → length got < need
      → l.now e ≤ l.now (r.1)
      → l.now e < deadline
      → IsDescent need
          (tcp_measure need deadline)
          ((need - length got) + (deadline - l.now e) + 1)
          (select_turn l fd need got r)
  unfolding select_turn
  select_turn-IsDescent fd need deadline got (select_failed, w) e lt clock early = omega (arith, lt)
  select_turn-IsDescent fd need deadline got (select_timeout, w) e lt clock early =
      omega (arith, lt)
  select_turn-IsDescent fd need deadline got (select_ready, w) e lt clock early =
      recv_turn-IsDescent need deadline got (l.recv fd (need - length got) w) e lt
        (laws.recv_few fd (need - length got) w)
        (omega (arith, clock, laws.recv_clock fd (need - length got) w))
        (λ b. omega (arith, clock, laws.recv_blocks fd (need - length got) w b)) early

  tcp_turn-IsDescent :
      (fd need deadline : ℕ) (got : Bytes) (dead : Bool) (e : E)
      → length got ≤ need
      → IsDescent need
          (tcp_measure need deadline)
          (tcp_measure need deadline got dead e)
          (tcp_turn l fd need deadline got dead e)
  unfolding tcp_turn tcp_measure
  tcp_turn-IsDescent fd need deadline got dead e k =
      elim (Bool-cases (leb need (length got) || dead)) [
        | inl done ↦ rw done k
        | inr more ↦ rw more (elim (Bool-cases (leb deadline (l.now e))) [
          | inl late ↦ rw late k
          | inr early ↦ rw early (
              let alive : dead ≡ false = ground (arith, more) in
              rw alive (
                select_turn-IsDescent fd need deadline got (l.select fd (deadline - l.now e) e) e
                  (ground (arith, more)) (laws.select_clock fd (deadline - l.now e) e)
                  (ground (arith, early))))
        ])
      ]

  -- What is left for the UART: two for every byte, and one for the deadline.
  uart_measure : ℕ → ℕ → Bytes → Bool → E → ℕ
  uart_measure need deadline got dead e =
      2 * (need - length got) + (if expired deadline (l.ticks e) then 0 else 1)

  uart_turn-IsDescent :
      (need deadline : ℕ) (got : Bytes) (dead : Bool) (r : Option Bytes × E) (bound : ℕ)
      → length got < need
      → IsFewRead (need - length got) (r.0)
      → (r.0 ≡ some [] → expired deadline (l.ticks (r.1)) ≡ true)
      → bound ≡ 2 * (need - length got) + 1
      → IsDescent need (uart_measure need deadline) bound (uart_turn got dead r)
  unfolding uart_turn uart_measure
  uart_turn-IsDescent need deadline got dead (none, w) bound lt f waits b = omega (arith, lt)
  uart_turn-IsDescent need deadline got dead (some [], w) bound lt f waits b = (
    omega (arith, lt, length-append got []),
    rw (waits refl) (omega (arith, lt, length-append got [], b)),
  )
  uart_turn-IsDescent need deadline got dead (some (c ∷ cs), w) bound lt f waits b = (
    omega (arith, lt, f, length-append got (c ∷ cs)),
    ground (arith, lt, f, length-append got (c ∷ cs), b),
  )

  uart_recv_turn-IsDescent :
      (need deadline : ℕ) (got : Bytes) (dead : Bool) (e : E)
      → length got ≤ need
      → IsDescent need
          (uart_measure need deadline)
          (uart_measure need deadline got dead e)
          (uart_recv_turn l need deadline got dead e)
  unfolding uart_recv_turn uart_measure
  uart_recv_turn-IsDescent need deadline got dead e k =
      elim (Bool-cases (leb need (length got) || expired deadline (l.ticks e))) [
        | inl done ↦ rw done k
        | inr more ↦ rw more (
            uart_turn-IsDescent need deadline got dead
              (l.uart_read_bytes (need - length got) (ticks_left deadline (l.ticks e)) e) _
              (ground (arith, more)) (laws.uart_few (need - length got) _ e)
              (laws.uart_waits (need - length got) deadline e) (bound (ground (arith, more))))
      ]
    where
      bound :
          expired deadline (l.ticks e) ≡ false
          → 2 * (need - length got) + (if expired deadline (l.ticks e) then 0 else 1)
            ≡ 2 * (need - length got) + 1
      bound live = rw live refl

  -- The receive loop of the TCP framing ends, within a turn for each byte asked for, one for each
  -- microsecond of the timeout and two more, and has at most the bytes asked for.
  pub tcp_recv-IsRecv :
      (fd : ℕ) (dead : Bool) (need ms : ℕ) (e : E)
      → IsRecv need (tcp_recv l (need + ms * 1000 + 2) fd dead need ms e)
  unfolding tcp_recv tcp_measure
  tcp_recv-IsRecv fd dead need ms e =
      let deadline : ℕ = l.now e + ms * 1000 in
      repeat-IsRecv need (tcp_turn l fd need deadline) (tcp_measure need deadline)
        (tcp_turn-IsDescent fd need deadline) (need + ms * 1000 + 2) [] dead e (small dead)
        (omega arith)
    where
      small :
          (b : Bool)
          → (if b then 0 else (need - 0) + (l.now e + ms * 1000 - l.now e) + 1)
            < need + ms * 1000 + 2
      small true = omega arith
      small false = omega arith

  -- The receive loop of the UART ends within two turns for each byte asked for and two more, and has
  -- at most the bytes asked for.
  pub uart_recv-IsRecv : (need ms : ℕ) (e : E) → IsRecv need (uart_recv l (2 * need + 2) need ms e)
  unfolding uart_recv uart_measure
  uart_recv-IsRecv need ms e =
      let deadline : ℕ = (l.ticks e + l.ticks_of ms) % 2 ^ 32 in
      repeat-IsRecv need (uart_recv_turn l need deadline) (uart_measure need deadline)
        (uart_recv_turn-IsDescent need deadline) (2 * need + 2) [] false e
        (small (expired deadline (l.ticks e))) (omega arith)
    where
      small : (b : Bool) → 2 * (need - 0) + (if b then 0 else 1) < 2 * need + 2
      small true = omega arith
      small false = omega arith

  flush_turn-IsDescent :
      (fd : ℕ) (pending : E → ℕ) (r : Recv × E) (e : E)
      → ((b : ℕ) (bs : Bytes) → r.0 ≡ received b bs → pending (r.1) < pending e)
      → IsDescent 0
          (λ got dead w. if dead then 0 else pending w + 1)
          (pending e + 1)
          (flush_turn l r)
  unfolding flush_turn
  flush_turn-IsDescent fd pending (received b bs, w) e drains =
      (omega arith, omega (arith, drains b bs refl))
  flush_turn-IsDescent fd pending (would_block, w) e drains = omega arith
  flush_turn-IsDescent fd pending (peer_closed, w) e drains = omega arith
  flush_turn-IsDescent fd pending (recv_failed, w) e drains = omega arith

  -- The resync loop of the TCP framing ends within a turn for each piece of input and two more, where
  -- every read that gives something lowers the amount of input that is left; it keeps nothing.
  pub tcp_flush_input-IsRecv :
      (fd : ℕ) (pending : E → ℕ) (dead : Bool) (e : E)
      → ((w : E) (b : ℕ) (bs : Bytes)
          → (l.recv_now fd 64 w).0 ≡ received b bs
          → pending (l.recv_now fd 64 w).1 < pending w)
      → IsRecv 0 (tcp_flush_input l (pending e + 2) fd dead e)
  unfolding tcp_flush_input
  tcp_flush_input-IsRecv fd pending dead e drains =
      repeat-IsRecv 0 _ (λ got gone w. if gone then 0 else pending w + 1) step (pending e + 2) []
        dead e (small dead) (omega arith)
    where
      small : (b : Bool) → (if b then 0 else pending e + 1) < pending e + 2
      small true = omega arith
      small false = omega arith

      step :
          (got : Bytes) (gone : Bool) (w : E)
          → length got ≤ 0
          → IsDescent 0
              (λ g d x. if d then 0 else pending x + 1)
              (if gone then 0 else pending w + 1)
              (if gone then over got gone w else flush_turn l (l.recv_now fd 64 w))
      step got true w k = k
      step got false w k = flush_turn-IsDescent fd pending (l.recv_now fd 64 w) w (drains w)

take-drop : (n : ℕ) (xs : Bytes) → take n xs ++ drop n xs ≡ xs
take-drop zero xs = refl
take-drop (suc n) [] = refl
take-drop (suc n) (x ∷ xs) = ap (◌∷◌ x) (take-drop n xs)

module _ {E : Type 0} (l : Driver E) (gone : E → Bytes)
    (sends : (fd : ℕ) (bytes : Bytes) (e : E)
      → gone (l.send fd bytes e).1 ≡ gone e ++ take (l.send fd bytes e).0 bytes) where
  send_loop :
      (fuel fd : ℕ) (before all bytes : Bytes) (dead : Bool) (e : E)
      → (if dead then 0 else length bytes + 1) < fuel
      → gone e ++ bytes ≡ before ++ all
      → IsSent gone before all (tcp_send l fuel fd bytes dead e)
  unfolding tcp_send IsSent
  send_loop zero fd before all bytes dead e h k = absurd (omega (arith, h))
  send_loop (suc fuel) fd before all [] dead e h k = (([], dead, e), refl, k, inl refl)
  send_loop (suc fuel) fd before all (b ∷ bytes) true e h k =
      ((b ∷ bytes, true, e), refl, k, inr refl)
  send_loop (suc fuel) fd before all (b ∷ bytes) false e h k =
      let r = l.send fd (b ∷ bytes) e in
      elim (Bool-cases (r.0 == 0)) [
        | inl stalled ↦
            let none_sent : r.0 ≡ 0 = (==_iff (r.0) 0).0 stalled in
            let same : gone (r.1) ≡ gone e =
              sends fd (b ∷ bytes) e
              ∙ ap (λ (n : ℕ). gone e ++ take n (b ∷ bytes)) none_sent
              ∙ append_nil (gone e) in
            rw stalled (
              send_loop fuel fd before all (b ∷ bytes) true (r.1) (omega (arith, h))
                (ap (λ (xs : Bytes). xs ++ (b ∷ bytes)) same ∙ k))
        | inr sent ↦
            let on : gone (r.1) ++ drop (r.0) (b ∷ bytes) ≡ gone e ++ (b ∷ bytes) =
              ap (λ (xs : Bytes). xs ++ drop (r.0) (b ∷ bytes)) (sends fd (b ∷ bytes) e)
              ∙ append_assoc (gone e) (take (r.0) (b ∷ bytes)) (drop (r.0) (b ∷ bytes))
              ∙ ap (λ (xs : Bytes). gone e ++ xs) (take-drop (r.0) (b ∷ bytes)) in
            rw sent (
              send_loop fuel fd before all (drop (r.0) (b ∷ bytes)) false (r.1)
                (ground (arith, h, sent, length-drop (r.0) (b ∷ bytes))) (on ∙ k))
      ]

  -- The send loop of the TCP framing ends within a turn for each byte and two more, where each send
  -- puts out the part of its bytes that it says it has. What has gone out followed by what is left is
  -- then the message; everything has gone out, or the client is marked dead.
  pub tcp_send-IsSent :
      (fd : ℕ) (bytes : Bytes) (dead : Bool) (e : E)
      → IsSent gone (gone e) bytes (tcp_send l (length bytes + 2) fd bytes dead e)
  tcp_send-IsSent fd bytes dead e =
      send_loop (length bytes + 2) fd (gone e) bytes bytes dead e (small dead) refl
    where
      small : (b : Bool) → (if b then 0 else length bytes + 1) < length bytes + 2
      small true = omega arith
      small false = omega arith
