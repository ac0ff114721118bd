-- ===== src/Fdc/Attach/Ownership.antt =====
-- The TCP attachment of src/fdc/fdc.c: the listener's calls and the task's service interleaved.
use fdc_sds_pio.Prelude.{
  Bool, Bool-cases, Bytes, Option, false, if◌then◌else◌, inl, inr, none, not, refl, some, true, ℕ,
  ◌&&◌, ◌||◌, ◌≡◌,
}
use fdc_sds_pio.Fdc.State.{Fdc, Transport, xport_tcp, xport_uart}
use fdc_sds_pio.Fdc.Wire.{Wire}
use fdc_sds_pio.Fdc.Attach.{
  adopt, adopted, attach_free, dropped, fdc_tcp_attach, fdc_tcp_detach, tcp_drop, tcp_service,
}

-- Idle on the UART, a client waiting, or a client attached.
pub data Link : Bool → Option ℕ → Option ℕ → Transport → Type 0 where
  idle : Link false none none xport_uart
  waiting : (fd : ℕ) → Link true none (some fd) xport_uart
  attached : (fd : ℕ) → Link true (some fd) none xport_tcp

abbrev pub IsLinked : Fdc → Type 0
IsLinked f = Link f.tcp_active f.tcp_fd f.tcp_pending f.stats.transport

Link-free :
    {a : Bool} {o p : Option ℕ} {t : Transport} (fd : ℕ)
    → Link a o p t
    → (not a && elim p [ none ↦ true | some n ↦ false ]) ≡ true
    → Link true o (some fd) t
Link-free fd idle free = waiting fd
Link-free fd (waiting n) free = absurd (cc)
Link-free fd (attached n) free = absurd (cc)

Link-close :
    {a : Bool} {o p : Option ℕ} {t : Transport} (fd : ℕ)
    → Link a o p t
    → o ≡ some fd
    → Link false none p xport_uart
Link-close fd idle held = absurd (cc)
Link-close fd (waiting n) held = absurd (cc)
Link-close fd (attached n) held = idle

Link-adopt :
    {a : Bool} {o p : Option ℕ} {t : Transport} (fd : ℕ)
    → Link a o p t
    → p ≡ some fd
    → Link a (some fd) none xport_tcp
Link-adopt fd idle held = absurd (cc)
Link-adopt fd (waiting n) held = attached fd
Link-adopt fd (attached n) held = absurd (cc)

pub attach-IsLinked :
    (fd : ℕ) (peer : Option Bytes) (f : Fdc) → IsLinked f → IsLinked ((fdc_tcp_attach fd peer f).1)
unfolding fdc_tcp_attach attach_free
attach-IsLinked fd peer f linked = elim (Bool-cases (attach_free f)) [
  | inl free ↦ rw free (Link-free fd linked free)
  | inr taken ↦ rw taken linked
]

kick-IsLinked :
    (b : Bool) (f : Fdc) → IsLinked f → IsLinked (if b then record f { tcp_kick = true } else f)
kick-IsLinked true f linked = linked
kick-IsLinked false f linked = linked

pub detach-IsLinked : (f : Fdc) → IsLinked f → IsLinked (fdc_tcp_detach f)
unfolding fdc_tcp_detach
detach-IsLinked f linked = kick-IsLinked f.tcp_active f linked

adopt-IsLinked :
    (o p : Option ℕ) (f : Fdc) → f.tcp_pending ≡ p → IsLinked f → IsLinked (adopt o p f)
unfolding adopt adopted
adopt-IsLinked none none f held linked = linked
adopt-IsLinked none (some fd) f held linked = Link-adopt fd linked held
adopt-IsLinked (some n) p f held linked = linked

module _ {E : Type 0} (w : Wire E) where
  drop-IsLinked :
      (o : Option ℕ) (f : Fdc) (e : E) → f.tcp_fd ≡ o → IsLinked f → IsLinked ((tcp_drop w o f e).0)
  unfolding tcp_drop dropped
  drop-IsLinked none f e held linked = linked
  drop-IsLinked (some fd) f e held linked = Link-close fd linked held

  pub service-IsLinked : (f : Fdc) (e : E) → IsLinked f → IsLinked ((tcp_service w f e).0)
  unfolding tcp_service
  service-IsLinked f e linked = elim (Bool-cases (f.tcp_dead || f.tcp_kick)) [
    | inl gone ↦ rw gone (
        let f1 = (tcp_drop w f.tcp_fd f e).0 in
        adopt-IsLinked f1.tcp_fd f1.tcp_pending f1 refl (drop-IsLinked f.tcp_fd f e refl linked))
    | inr here ↦ rw here (adopt-IsLinked f.tcp_fd f.tcp_pending f refl linked)
  ]
