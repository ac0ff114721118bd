-- ===== src/Tnfs/Client/Answer.antt =====
-- src/net/tnfs.c: what tnfs_command gives.
use fdc_sds_pio.Prelude.{
  Bool, Bool-cases, Bytes, Option, ap, arith, false, get_or, inl, inr, length, ltb, none, not, refl,
  some, suc, sym, true, zero, ℕ, ◌%◌, ◌++◌, ◌+◌, ◌==◌, ◌^◌, ◌||◌, ◌∙◌, ◌∷◌, ◌≡◌, ◌≢◌, ◌≤◌,
}
use fdc_sds_pio.Esp.{Esp, err_invalid_size, err_timeout, esp_fail, esp_ok}
use fdc_sds_pio.Tnfs.Net.{Net, Ret}
use fdc_sds_pio.Tnfs.Framing.{tcp_response, udp_from, udp_response, udp_turn}
use fdc_sds_pio.Tnfs.Framing.Pieces.{NetLaws, got_size, some_eq}
use fdc_sds_pio.Tnfs.Framing.Fits.{Fits, tcp_response-Fits}
use fdc_sds_pio.Tnfs.Client.{
  Called, File, attempt, attempts, backoff, receive, status, tcp_received, tnfs_command,
  tnfs_retries, udp_received,
}
use fdc_sds_pio.Tnfs.Proto.{hdr_len, msg_cap, wr16}
use fdc_sds_pio.Tnfs.Status.{st_eagain}

-- A command touches the sequence number and the last response of a session, nothing else.
abbrev pub kept_fields : File → Bool × ℕ × ℕ × ℕ × ℕ × ℕ × Bool
kept_fields f = (f.tcp, f.sock, f.conn, f.fd, f.size, f.pos, f.pos_valid)

-- A whole response; over UDP it is one to this request.
pub record IsResponse (tcp : Bool) (seq cmd : ℕ) (resp : Bytes) : Type 0 where
  pub whole : 5 ≤ length resp
  pub bounded : length resp ≤ msg_cap
  pub to_request : tcp ≡ false → (get_or resp 2 0 ≡ seq) × (get_or resp 3 0 ≡ cmd)

pub record IsAnswer {E : Type 0} (f : File) (cmd : ℕ) (r : Called E) : Type 0 where
  pub kept : kept_fields r.1 ≡ kept_fields f
  -- On success the response is one to this command, is not EAGAIN, and the number goes on by one;
  pub answered : r.0 ≡ esp_ok → IsResponse f.tcp f.seq cmd r.1.resp
  pub settled : r.0 ≡ esp_ok → status r.1 ≢ st_eagain
  pub advanced : r.0 ≡ esp_ok → r.1.seq ≡ (f.seq + 1) % 2 ^ 8
  -- on failure it stays.
  pub stayed : r.0 ≢ esp_ok → r.1.seq ≡ f.seq

-- What `receive` gives.
abbrev IsReceived : {E : Type 0} → Bool → ℕ → ℕ → Ret E (Option Bytes) → Type 0
IsReceived tcp seq cmd (inr err, e) = err ≢ esp_ok
IsReceived tcp seq cmd (inl none, e) = Unit {0}
IsReceived tcp seq cmd (inl (some resp), e) = IsResponse tcp seq cmd resp

module _ {E : Type 0} (net : Net E) (laws : NetLaws net) where
  udp_turn_lem :
      (rest : E → Option Bytes × E) (seq cmd : ℕ) (resp : Bytes) (r : Option Bytes × E)
      → ((e1 : E) → (rest e1).0 ≡ some resp → IsResponse false seq cmd resp)
      → got_size r.0 ≤ msg_cap
      → (udp_turn rest seq cmd r).0 ≡ some resp
      → IsResponse false seq cmd resp
  unfolding udp_turn
  udp_turn_lem rest seq cmd resp (none, e) ih l h = absurd (cc)
  udp_turn_lem rest seq cmd resp (some got, e) ih l h = elim (Bool-cases (ltb (length got) 5)) [
    | inl q ↦ ih e (rw q at h)
    | inr q ↦ elim (Bool-cases (not (get_or got 2 0 == seq) || not (get_or got 3 0 == cmd))) [
      | inl r ↦ ih e (rw (q, r) at h)
      | inr r ↦
          let same : got ≡ resp = some_eq got resp (rw (q, r) at h) in
          rw (← same) (record {
            whole = ground (arith, q);
            bounded = l;
            to_request = λ z. (ground (arith, r), ground (arith, r));
          })
    ]
  ]

  udp_from_lem :
      (sock f seq cmd : ℕ) (e : E) (resp : Bytes)
      → (udp_from net sock f seq cmd e).0 ≡ some resp
      → IsResponse false seq cmd resp
  unfolding udp_from
  udp_from_lem sock zero seq cmd e resp h = absurd (cc)
  udp_from_lem sock (suc f) seq cmd e resp h =
      udp_turn_lem (udp_from net sock f seq cmd) seq cmd resp (net.recv sock msg_cap e)
        (λ e1 k. udp_from_lem sock f seq cmd e1 resp k) (laws.recv_bounded sock msg_cap e) h

  tcp_received_lem :
      (seq cmd : ℕ) (r : Ret E Bytes) → Fits r → IsReceived true seq cmd (tcp_received r)
  unfolding tcp_received
  tcp_received_lem seq cmd (inr err, e) k = k.0
  tcp_received_lem seq cmd (inl resp, e) k = record {
    whole = k.0;
    bounded = k.1;
    to_request = λ z. absurd (cc);
  }

  udp_received_lem :
      (seq cmd : ℕ) (r : Option Bytes × E)
      → ((resp : Bytes) → r.0 ≡ some resp → IsResponse false seq cmd resp)
      → IsReceived false seq cmd (udp_received r)
  unfolding udp_received
  udp_received_lem seq cmd (none, e) k = tt
  udp_received_lem seq cmd (some resp, e) k = k resp refl

  receive-IsReceived :
      (f : File) (seq cmd : ℕ) (e : E) → IsReceived f.tcp seq cmd (receive net f seq cmd e)
  unfolding receive udp_response
  receive-IsReceived f seq cmd e = elim (Bool-cases f.tcp) [
    | inl q ↦ rw q (
        tcp_received_lem seq cmd (tcp_response net f.sock cmd e)
          (tcp_response-Fits net laws f.sock cmd e).0)
    | inr q ↦ rw q (
        udp_received_lem seq cmd (udp_response net f.sock seq cmd e)
          (λ resp k. udp_from_lem f.sock (suc (net.queued f.sock e)) seq cmd e resp k))
  ]

  IsReceived-at :
      (tcp : Bool) (s t cmd : ℕ) (r : Ret E (Option Bytes))
      → s ≡ t
      → IsReceived tcp s cmd r
      → IsReceived tcp t cmd r
  IsReceived-at tcp s t cmd (inr err, e) h k = k
  IsReceived-at tcp s t cmd (inl none, e) h k = k
  IsReceived-at tcp s t cmd (inl (some resp), e) h k = rw h at k

  -- A failed call.
  failed : (f : File) (cmd : ℕ) (err : Esp) (e : E) → err ≢ esp_ok → IsAnswer f cmd (err, f, e)
  failed f cmd err e n = record {
    kept = refl;
    answered = λ h. absurd (n h);
    settled = λ h. absurd (n h);
    advanced = λ h. absurd (n h);
    stayed = λ h. refl;
  }

  attempt-IsAnswer :
      (rest : File → E → Called E) (f : File) (cmd : ℕ) (r : Ret E (Option Bytes))
      → ((g : File) (e1 : E)
          → kept_fields g ≡ kept_fields f
          → g.seq ≡ f.seq
          → IsAnswer f cmd (rest g e1))
      → IsReceived f.tcp f.seq cmd r
      → IsAnswer f cmd (attempt net rest f r)
  unfolding attempt
  attempt-IsAnswer rest f cmd (inr err, e) ih n = failed f cmd err e n
  attempt-IsAnswer rest f cmd (inl none, e) ih n = ih f e refl refl
  attempt-IsAnswer rest f cmd (inl (some resp), e) ih n =
      elim (Bool-cases (get_or resp 4 0 == st_eagain)) [
        | inl q ↦ rw q (ih (record f { resp = resp }) (net.delay_ms (backoff resp) e) refl refl)
        | inr q ↦ rw q (record {
          kept = refl;
          answered = λ h. n;
          settled = λ h z. ground (arith, q, z);
          advanced = λ h. refl;
          stayed = λ h. absurd (h refl);
        })
      ]

  -- Another file that has the same fields.
  same-IsAnswer :
      (f g : File) (cmd : ℕ) (r : Called E)
      → kept_fields g ≡ kept_fields f
      → g.seq ≡ f.seq
      → IsAnswer g cmd r
      → IsAnswer f cmd r
  same-IsAnswer f g cmd r k s a =
      let tcp : g.tcp ≡ f.tcp = ap (λ (p : Bool × ℕ × ℕ × ℕ × ℕ × ℕ × Bool). p.0) k in
      record {
        kept = a.kept ∙ k;
        answered = λ h. rw (tcp, s) at (a.answered h);
        settled = a.settled;
        advanced = λ h. rw s at (a.advanced h);
        stayed = λ h. a.stayed h ∙ s;
      }

  attempts-IsAnswer :
      (n : ℕ) (f : File) (s cmd : ℕ) (req : Bytes) (e : E)
      → s ≡ f.seq
      → IsAnswer f cmd (attempts net n s cmd req f e)
  unfolding attempts
  attempts-IsAnswer zero f s cmd req e h = failed f cmd err_timeout e (λ z. absurd (cc))
  attempts-IsAnswer (suc n) f s cmd req e h =
      let e1 = (net.send f.sock req e).1 in
      let got : IsReceived f.tcp f.seq cmd (receive net f s cmd e1) =
        IsReceived-at f.tcp s f.seq cmd (receive net f s cmd e1) h
          (receive-IsReceived f s cmd e1) in
      elim (Bool-cases (net.send f.sock req e).0) [
        | inl q ↦ rw q (
            attempt-IsAnswer (attempts net n s cmd req) f cmd (receive net f s cmd e1)
              (λ g e2 k t.
                same-IsAnswer f g cmd (attempts net n s cmd req g e2) k t
                  (attempts-IsAnswer n g s cmd req e2 (h ∙ sym t)))
              got)
        | inr q ↦ rw q (failed f cmd esp_fail e1 (λ z. absurd (cc)))
      ]

  -- A command that succeeds has a whole response, one to this request over UDP, that is not EAGAIN,
  -- and the sequence number has gone on by one; after any error the number is what it was. In no
  -- case does anything else of the session change but the response.
  pub tnfs_command-IsAnswer :
      (f : File) (cmd : ℕ) (pl : Bytes) (e : E) → IsAnswer f cmd (tnfs_command net f cmd pl e)
  unfolding tnfs_command
  tnfs_command-IsAnswer f cmd pl e = elim (Bool-cases (ltb msg_cap (hdr_len + length pl))) [
    | inl q ↦ rw q (failed f cmd err_invalid_size e (λ z. absurd (cc)))
    | inr q ↦
        rw q (attempts-IsAnswer tnfs_retries f f.seq cmd (wr16 f.conn ++ f.seq ∷ cmd ∷ pl) e refl)
  ]
