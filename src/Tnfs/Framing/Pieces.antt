-- ===== src/Tnfs/Framing/Pieces.antt =====
-- src/net/tnfs.c: a response from the stream, piece after piece.
use fdc_sds_pio.Esp.{esp_ok}
use fdc_sds_pio.Tnfs.Cmd.{cmd_read, cmd_readdir, cmd_readdirx}
use fdc_sds_pio.Tnfs.Status.{st_eagain, st_eof, st_ok}
use fdc_sds_pio.Prelude.{
  Bool-cases, Bytes, Option, [], arith, drop, get_or, inl, inr, length, length-append, ltb, none,
  some, suc, zero, ℕ, ◌&&◌, ◌++◌, ◌+◌, ◌-◌, ◌<◌, ◌==◌, ◌||◌, ◌∷◌, ◌≡◌, ◌≢◌, ◌≤◌,
}
use fdc_sds_pio.Tnfs.Net.{Net, Ret, then_do}
use fdc_sds_pio.Tnfs.Framing.{
  extra_of, name_turn, or_timeout, read_body, read_counted, read_entries, read_entry, read_extra,
  read_from, read_listing, read_name, read_rest, read_turn, tcp_read_exact, tcp_response,
}
use fdc_sds_pio.Tnfs.Proto.{msg_cap, rd16, readdirx_fixed}
use mathlib.Core.Path.{subst}

abbrev pub got_size : Option Bytes → ℕ
got_size none = 0
got_size (some bytes) = length bytes

-- recv gives no more than was asked for, and each thing that it gives is one less to come.
pub record NetLaws {E : Type 0} (net : Net E) : Type 0 where
  pub recv_bounded : (sock n : ℕ) (e : E) → got_size (net.recv sock n e).0 ≤ n
  pub recv_queued :
      (sock n : ℕ) (e : E) (bytes : Bytes)
      → (net.recv sock n e).0 ≡ some bytes
      → net.queued sock (net.recv sock n e).1 < net.queued sock e

-- A response has from `low` to `high` bytes, and where there is none there is an error. `P` holds of
-- the size of a response and the state, `Q` of the state behind an error.
abbrev pub FitsIn : {E : Type 0} → (ℕ → E → Type 0) → (E → Type 0) → ℕ → ℕ → Ret E Bytes → Type 0
FitsIn P Q low high (inl bytes, e) =
    (low ≤ length bytes) × (length bytes ≤ high) × P (length bytes) e
FitsIn P Q low high (inr err, e) = (err ≢ esp_ok) × Q e

-- What a run of tcp_read_exact behind `k` bytes has read, of `n` bytes.
abbrev IsRead : {E : Type 0} → (ℕ → E → Type 0) → (E → Type 0) → ℕ → ℕ → Option Bytes × E → Type 0
IsRead P Q k n (none, e) = Q e
IsRead P Q k n (some out, e) = (length out ≡ n) × P (k + length out) e

-- What a recv behind `k` bytes does.
abbrev pub IsReceived :
    {E : Type 0} → (ℕ → E → Type 0) → (E → Type 0) → ℕ → Option Bytes × E → Type 0
IsReceived P Q k (none, e) = Q e
IsReceived P Q k (some bytes, e) = P (k + length bytes) e

pub some_eq {ℓ} : {A : Type ℓ} (a b : A) → some a ≡ some b → a ≡ b
some_eq a b h = cc

-- Where every recv that stays inside the buffer keeps to `P` and `Q`, tcp_response does.
module _ {E : Type 0} (net : Net E) (laws : NetLaws net) (P : ℕ → E → Type 0) (Q : E → Type 0)
    (weaken : (k : ℕ) (e : E) → P k e → Q e)
    (receives : (sock k n : ℕ) (e : E)
      → P k e
      → k + n ≤ msg_cap
      → IsReceived P Q k (net.recv sock n e)) where
  resized : (a b : ℕ) (e : E) → a ≡ b → P a e → P b e
  resized a b e h p = subst (λ n. P n e) h p

  turn-IsRead :
      (rest : ℕ → Bytes → E → Option Bytes × E) (k n : ℕ) (acc : Bytes) (r : Option Bytes × E)
      → ((m : ℕ) (acc1 : Bytes) (e1 : E)
          → P (k + length acc1) e1
          → k + (length acc1 + m) ≤ msg_cap
          → IsRead P Q k (length acc1 + m) (rest m acc1 e1))
      → got_size r.0 ≤ n
      → IsReceived P Q (k + length acc) r
      → k + (length acc + n) ≤ msg_cap
      → IsRead P Q k (length acc + n) (read_turn rest n acc r)
  unfolding read_turn
  turn-IsRead rest k n acc (none, e) ih l q h = q
  turn-IsRead rest k n acc (some [], e) ih l q h = weaken _ e q
  turn-IsRead rest k n acc (some (b ∷ bs), e) ih l q h =
      let more = length-append acc (b ∷ bs) in
      let size : length (acc ++ b ∷ bs) + (n - length (b ∷ bs)) ≡ length acc + n =
        omega (arith, more, l) in
      rw size at (
        ih (n - length (b ∷ bs)) (acc ++ b ∷ bs) e
          (resized _ (k + length (acc ++ b ∷ bs)) e (omega (arith, more)) q)
          (omega (arith, size, h)))

  read_from-IsRead :
      (sock f k n : ℕ) (acc : Bytes) (e : E)
      → P (k + length acc) e
      → k + (length acc + n) ≤ msg_cap
      → IsRead P Q k (length acc + n) (read_from net sock f n acc e)
  unfolding read_from
  read_from-IsRead sock f k zero acc e p h = (omega arith, p)
  read_from-IsRead sock zero k (suc n) acc e p h = weaken _ e p
  read_from-IsRead sock (suc f) k (suc n) acc e p h =
      turn-IsRead (read_from net sock f) k (suc n) acc (net.recv sock (suc n) e)
        (λ m acc1 e1 q l. read_from-IsRead sock f k m acc1 e1 q l)
        (laws.recv_bounded sock (suc n) e)
        (receives sock (k + length acc) (suc n) e p (omega (arith, h))) h

  or_timeout-FitsIn :
      (n low high : ℕ) (acc : Bytes) (r : Option Bytes × E)
      → IsRead P Q (length acc) n r
      → low ≤ length acc + n
      → length acc + n ≤ high
      → FitsIn P Q low high (or_timeout acc r)
  unfolding or_timeout
  or_timeout-FitsIn n low high acc (none, e) q l h = ((λ z. absurd (cc)), q)
  or_timeout-FitsIn n low high acc (some out, e) (size, p) l h =
      let all = length-append acc out in
      (
        omega (arith, size, all),
        omega (arith, size, all),
        resized _ (length (acc ++ out)) e (omega (arith, all)) p,
      )

  tcp_read_exact-FitsIn :
      (sock n low high : ℕ) (acc : Bytes) (e : E)
      → P (length acc) e
      → low ≤ length acc + n
      → length acc + n ≤ high
      → high ≤ msg_cap
      → FitsIn P Q low high (tcp_read_exact net sock n acc e)
  unfolding tcp_read_exact
  tcp_read_exact-FitsIn sock n low high acc e p l h room =
      let none_yet : 0 + n ≡ n = omega arith in
      or_timeout-FitsIn n low high acc (read_from net sock n n [] e)
        (subst (λ (m : ℕ). IsRead P Q (length acc) m (read_from net sock n n [] e)) none_yet
          (read_from-IsRead sock n (length acc) n [] e
            (resized _ (length acc + 0) e (omega arith) p) (omega arith)))
        l h

  then_do-FitsIn :
      (low mid high : ℕ) (r : Ret E Bytes) (next : Bytes → E → Ret E Bytes)
      → FitsIn P Q low mid r
      → ((acc : Bytes) (e : E)
          → low ≤ length acc
          → length acc ≤ mid
          → P (length acc) e
          → FitsIn P Q low high (next acc e))
      → FitsIn P Q low high (then_do r next)
  unfolding then_do
  then_do-FitsIn low mid high (inr err, e) next f k = f
  then_do-FitsIn low mid high (inl acc, e) next f k = k acc e f.0 f.1 f.2

  read_name-FitsIn :
      (sock room : ℕ) (acc : Bytes) (e : E)
      → P (length acc) e
      → 5 ≤ length acc
      → length acc + room ≤ msg_cap
      → FitsIn P Q 5 msg_cap (read_name net sock room acc e)
  unfolding read_name name_turn
  read_name-FitsIn sock zero acc e p l h = ((λ z. absurd (cc)), weaken _ e p)
  read_name-FitsIn sock (suc room) acc e p l h =
      then_do-FitsIn 5 (length acc + 1) msg_cap (tcp_read_exact net sock 1 acc e)
        (name_turn (read_name net sock room))
        (tcp_read_exact-FitsIn sock 1 5 (length acc + 1) acc e p (omega arith) (omega arith)
          (omega arith))
        (λ acc1 e1 l1 h1 p1. elim (Bool-cases (get_or acc1 (length acc1 - 1) 0 == 0)) [
          | inl q ↦ rw q (l1, omega arith, p1)
          | inr q ↦ rw q (read_name-FitsIn sock room acc1 e1 p1 l1 (omega arith))
        ])

  read_entry-FitsIn :
      (sock : ℕ) (acc : Bytes) (e : E)
      → P (length acc) e
      → 5 ≤ length acc
      → length acc ≤ msg_cap
      → FitsIn P Q 5 msg_cap (read_entry net sock acc e)
  unfolding read_entry
  read_entry-FitsIn sock acc e p l h =
      elim (Bool-cases (ltb msg_cap (length acc + readdirx_fixed))) [
        | inl q ↦ rw q ((λ z. absurd (cc)), weaken _ e p)
        | inr q ↦ rw q (
            then_do-FitsIn 5 msg_cap msg_cap (tcp_read_exact net sock readdirx_fixed acc e) _
              (tcp_read_exact-FitsIn sock readdirx_fixed 5 msg_cap acc e p (omega arith)
                (ground (arith, q)) (omega arith))
              (λ acc1 e1 l1 h1 p1.
                read_name-FitsIn sock (msg_cap - length acc1) acc1 e1 p1 l1 (omega arith)))
      ]

  read_entries-FitsIn :
      (sock count : ℕ) (acc : Bytes) (e : E)
      → P (length acc) e
      → 5 ≤ length acc
      → length acc ≤ msg_cap
      → FitsIn P Q 5 msg_cap (read_entries net sock count acc e)
  unfolding read_entries
  read_entries-FitsIn sock zero acc e p l h = (l, h, p)
  read_entries-FitsIn sock (suc count) acc e p l h =
      then_do-FitsIn 5 msg_cap msg_cap (read_entry net sock acc e) (read_entries net sock count)
        (read_entry-FitsIn sock acc e p l h)
        (λ acc1 e1 l1 h1 p1. read_entries-FitsIn sock count acc1 e1 p1 l1 h1)

  read_extra-FitsIn :
      (sock extra high : ℕ) (acc : Bytes) (e : E)
      → P (length acc) e
      → 5 ≤ length acc
      → length acc + extra ≤ high
      → high ≤ msg_cap
      → FitsIn P Q 5 high (read_extra net sock extra acc e)
  unfolding read_extra
  read_extra-FitsIn sock extra high acc e p l h room = elim (Bool-cases (extra == 0)) [
    | inl q ↦ rw q (l, omega arith, p)
    | inr q ↦ rw q (tcp_read_exact-FitsIn sock extra 5 high acc e p (omega arith) h room)
  ]

  read_rest-FitsIn :
      (sock cmd : ℕ) (acc : Bytes) (e : E)
      → P (length acc) e
      → 5 ≤ length acc
      → length acc ≤ 9
      → FitsIn P Q 5 msg_cap (read_rest net sock cmd acc e)
  unfolding read_rest read_counted read_listing
  read_rest-FitsIn sock cmd acc e p l h = elim (Bool-cases (cmd == cmd_read)) [
    | inl q ↦ rw q (elim (Bool-cases (ltb msg_cap (length acc + rd16 (drop 5 acc)))) [
      | inl r ↦ rw r ((λ z. absurd (cc)), weaken _ e p)
      | inr r ↦ rw r (
          read_extra-FitsIn sock (rd16 (drop 5 acc)) msg_cap acc e p l (ground (arith, r))
            (omega arith))
    ])
    | inr q ↦ rw q (elim (Bool-cases (cmd == cmd_readdir)) [
      | inl r ↦ rw r (read_name-FitsIn sock (msg_cap - length acc) acc e p l (omega arith))
      | inr r ↦ rw r (elim (Bool-cases (cmd == cmd_readdirx)) [
        | inl s ↦ rw s (
            then_do-FitsIn 5 13 msg_cap (tcp_read_exact net sock 4 acc e) _
              (tcp_read_exact-FitsIn sock 4 5 13 acc e p (omega arith) (omega arith) (omega arith))
              (λ acc1 e1 l1 h1 p1.
                read_entries-FitsIn sock (get_or acc1 (length acc) 0) acc1 e1 p1 l1 (omega arith)))
        | inr s ↦ rw s (l, omega arith, p)
      ])
    ])
  ]

  extra_small : (cmd : ℕ) → extra_of cmd ≤ 4
  unfolding extra_of
  extra_small cmd = ground arith

  read_body-FitsIn :
      (sock cmd : ℕ) (acc : Bytes) (e : E)
      → P (length acc) e
      → 5 ≤ length acc
      → length acc ≤ 5
      → FitsIn P Q 5 msg_cap (read_body net sock cmd acc e)
  unfolding read_body
  read_body-FitsIn sock cmd acc e p l h =
      let status = get_or acc 4 0 in
      elim (Bool-cases (status == st_eagain)) [
        | inl q ↦ rw q (
            tcp_read_exact-FitsIn sock 2 5 msg_cap acc e p (omega arith) (omega arith)
              (omega arith))
        | inr q ↦ rw q (elim (Bool-cases (status == st_ok || cmd == cmd_read && status == st_eof)) [
          | inl r ↦ rw r (
              then_do-FitsIn 5 9 msg_cap (read_extra net sock (extra_of cmd) acc e)
                (read_rest net sock cmd)
                (read_extra-FitsIn sock (extra_of cmd) 9 acc e p l (omega (arith, extra_small cmd))
                  (omega arith))
                (λ acc1 e1 l1 h1 p1. read_rest-FitsIn sock cmd acc1 e1 p1 l1 h1))
          | inr r ↦ rw r (l, omega arith, p)
        ])
      ]

  pub response-FitsIn :
      (sock cmd : ℕ) (e : E) → P 0 e → FitsIn P Q 5 msg_cap (tcp_response net sock cmd e)
  unfolding tcp_response
  response-FitsIn sock cmd e p =
      then_do-FitsIn 5 5 msg_cap (tcp_read_exact net sock 5 [] e) (read_body net sock cmd)
        (tcp_read_exact-FitsIn sock 5 5 5 [] e p (omega arith) (omega arith) (omega arith))
        (λ acc e1 l h q. read_body-FitsIn sock cmd acc e1 q l h)
