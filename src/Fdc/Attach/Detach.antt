-- ===== src/Fdc/Attach/Detach.antt =====
-- src/fdc/fdc.c: a client that is told to go, and the one after it.
use fdc_sds_pio.Prelude.{
  Bool, Bytes, Option, ap, false, if◌then◌else◌, none, refl, some, true, ℕ, ◌||◌, ◌≡◌,
}
use fdc_sds_pio.Fdc.State.{Fdc, Transport, xport_uart}
use fdc_sds_pio.Fdc.Wire.{Wire}
use fdc_sds_pio.Fdc.Attach.{
  adopt, attach_free, dropped, fdc_tcp_attach, fdc_tcp_detach, tcp_drop, tcp_service,
}
use fdc_sds_pio.Fdc.Attach.Ownership.{IsLinked, Link, attached, idle, waiting}

attached_lem :
    {a : Bool} {o p : Option ℕ} {t : Transport} (fd : ℕ)
    → Link a o p t
    → o ≡ some fd
    → (a ≡ true) × (p ≡ none)
attached_lem fd idle h = absurd (cc)
attached_lem fd (waiting n) h = absurd (cc)
attached_lem fd (attached n) h = (refl, refl)

-- The slot is free, the socket closed, and the UART served.
pub record IsReleased {E : Type 0} (w : Wire E) (fd : ℕ) (e : E) (out : Fdc × E) : Type 0 where
  pub free : (out.0).tcp_active ≡ false
  pub no_fd : (out.0).tcp_fd ≡ none
  pub uart : (out.0).stats.transport ≡ xport_uart
  pub closed : out.1 ≡ w.close fd e
  pub next : (n : ℕ) (peer : Option Bytes) → (fdc_tcp_attach n peer (out.0)).0 ≡ true

kicked_or : (b : Bool) → (b || true) ≡ true
kicked_or true = refl
kicked_or false = refl

released :
    {E : Type 0} (w : Wire E) (fd : ℕ) (f : Fdc) (e : E)
    → f.tcp_pending ≡ none
    → IsReleased w fd e (adopt none f.tcp_pending (dropped f), w.close fd e)
unfolding adopt dropped fdc_tcp_attach attach_free
released w fd f e h =
    rw h (record { free = refl; no_fd = refl; uart = refl; closed = refl; next = λ n peer. refl })

-- The kick that `fdc_tcp_detach` gives to an active client.
kicked : Fdc → Fdc
kicked f = record f { tcp_kick = true }

detached : (f : Fdc) → f.tcp_active ≡ true → fdc_tcp_detach f ≡ kicked f
unfolding fdc_tcp_detach kicked
detached f on = ap (λ b. if b then record f { tcp_kick = true } else f) on

serviced :
    {E : Type 0} (w : Wire E) (fd : ℕ) (o : Option ℕ) (f : Fdc) (e : E)
    → o ≡ some fd
    → f.tcp_kick ≡ true
    → f.tcp_pending ≡ none
    → f.tcp_fd ≡ o
    → IsReleased w fd e (tcp_service w f e)
unfolding tcp_service tcp_drop dropped
serviced w fd o f e held kick waits same =
    rw (kick, kicked_or f.tcp_dead, same, held) (released w fd f e waits)

-- A client that is attached and told to detach is gone after the task's next service: its socket is
-- closed, the UART is served, and the next client is accepted.
pub service-detach-IsReleased :
    {E : Type 0} (w : Wire E) (fd : ℕ) (f : Fdc) (e : E)
    → IsLinked f
    → f.tcp_fd ≡ some fd
    → IsReleased w fd e (tcp_service w (fdc_tcp_detach f) e)
unfolding kicked
service-detach-IsReleased w fd f e linked held =
    let facts = attached_lem fd linked held in
    rw (detached f facts.0) (serviced w fd (some fd) (kicked f) e refl refl facts.1 held)
