-- ===== src/TnfsServer/Sessions/Ids.antt =====
-- src/net/tnfs_server.c: the ids that next_sid gives.
use fdc_sds_pio.Prelude.{
  Bool-cases, List, Option, [], arith, false, inl, inr, refl, some, suc, true, zero, ℕ, ◌%◌, ◌+◌,
  ◌<◌, ◌==◌, ◌^◌, ◌||◌, ◌∷◌, ◌≡◌, ◌≢◌, ◌⊎◌,
}
use fdc_sds_pio.TnfsServer.State.{Session, TnfsState}
use fdc_sds_pio.TnfsServer.Sessions.{is_taken, next_sid, next_sid_from, take_sid}

-- No live session has the id.
abbrev pub Unused : List Session → ℕ → Type 0
Unused [] id = Unit {0}
Unused (s ∷ ss) id = (s.live ≡ true → s.sid ≢ id) × Unused ss id

is_taken-Unused : (ss : List Session) (id : ℕ) → is_taken ss id ≡ false → Unused ss id
unfolding is_taken
is_taken-Unused [] id h = tt
is_taken-Unused (s ∷ ss) id h =
    ((λ l e. absurd (ground (arith, h, l, e))), is_taken-Unused ss id (ground (arith, h)))

-- A new id, and the counter after it.
pub record IsFresh (ss : List Session) (id : ℕ) (next : ℕ) : Type 0 where
  pub nonzero : id ≢ 0
  pub unused : Unused ss id
  pub wide : id < 2 ^ 16
  pub next_wide : next < 2 ^ 16

next_sid_from-IsFresh :
    (f : ℕ) (ss : List Session) (cand id next : ℕ)
    → cand < 2 ^ 16
    → next_sid_from f ss cand ≡ some (id, next)
    → IsFresh ss id next
unfolding next_sid_from
next_sid_from-IsFresh zero ss cand id next l h = absurd (cc)
next_sid_from-IsFresh (suc f) ss cand id next l h =
    elim (Bool-cases (cand == 0 || is_taken ss cand)) [
      | inl q ↦ next_sid_from-IsFresh f ss ((cand + 1) % 2 ^ 16) id next (omega arith) (rw q at h)
      | inr q ↦
          let here : ◌≡◌ {A = Option (ℕ × ℕ)} (some (cand, (cand + 1) % 2 ^ 16)) (some (id, next)) =
            rw q at h in
          let same : cand ≡ id = cc in
          let after : (cand + 1) % 2 ^ 16 ≡ next = cc in
          record {
            nonzero = λ z. ground (arith, same, z, q);
            unused = is_taken-Unused ss id (rw (← same) (ground (arith, q)));
            wide = rw (← same) l;
            next_wide = rw (← after) (omega arith);
          }
    ]

-- A candidate that is passed over is 0 or the id of one of the two sessions.
passed :
    (a b : Session) (cand : ℕ)
    → (cand == 0 || is_taken (a ∷ b ∷ []) cand) ≡ true
    → (cand ≡ 0) ⊎ (cand ≡ a.sid) ⊎ (cand ≡ b.sid)
unfolding is_taken
passed a b cand h = ground (arith, h)

-- The candidate after another.
abbrev step : ℕ → ℕ
step c = (c + 1) % 2 ^ 16

abbrev Passed : ℕ → ℕ → ℕ → Type 0
Passed x y c = (c ≡ 0) ⊎ (c ≡ x) ⊎ (c ≡ y)

four-Passed :
    (x y c : ℕ)
    → c < 2 ^ 16
    → Passed x y c
    → Passed x y (step c)
    → Passed x y (step (step c))
    → ¬ Passed x y (step (step (step c)))
four-Passed x y c l p q r s = omega arith

-- What the loop gives at a candidate that is taken, and at one that is not.
abbrev IsFound : ℕ → List Session → ℕ → Type 0
IsFound f ss c = (r : ℕ × ℕ) × (next_sid_from f ss c ≡ some r)

at_candidate :
    (f : ℕ) (a b : Session) (c : ℕ)
    → (Passed a.sid b.sid c → IsFound f (a ∷ b ∷ []) (step c))
    → IsFound (suc f) (a ∷ b ∷ []) c
unfolding next_sid_from
at_candidate f a b c k = elim (Bool-cases (c == 0 || is_taken (a ∷ b ∷ []) c)) [
  | inl q ↦ let (r, e) = k (passed a b c q) in (r, rw q e)
  | inr q ↦ ((c, step c), rw q refl)
]

-- With two sessions the fourth candidate is free at the latest.
next_sid_from-IsFound : (a b : Session) (c : ℕ) → c < 2 ^ 16 → IsFound 4 (a ∷ b ∷ []) c
next_sid_from-IsFound a b c l = at_candidate 3 a b c λ p. at_candidate 2 a b (step c) λ q.
    at_candidate 1 a b (step (step c)) λ r.
      at_candidate 0 a b (step (step (step c))) λ s. absurd (four-Passed a.sid b.sid c l p q r s)

-- next_sid ends within four turns, and gives an id other than 0 that no live session has; nothing else but its counter changes.
pub next_sid-IsFresh :
    (srv : TnfsState) (a b : Session)
    → srv.sessions ≡ a ∷ b ∷ []
    → srv.next_id < 2 ^ 16
    → IsFresh srv.sessions (next_sid srv).0 (next_sid srv).1.next_id
      × ((next_sid srv).1.sessions ≡ srv.sessions)
      × (next_sid_from 4 srv.sessions srv.next_id
          ≡ some ((next_sid srv).0, (next_sid srv).1.next_id))
unfolding next_sid take_sid
next_sid-IsFresh srv a b two l =
    let (r, e) = next_sid_from-IsFound a b srv.next_id l in
    let found : next_sid_from 4 srv.sessions srv.next_id ≡ some r = rw two e in
    rw found (next_sid_from-IsFresh 4 srv.sessions srv.next_id r.0 r.1 l found, refl, refl)
