-- ===== src/TnfsServer/Process/Keeps/Batches.antt =====
-- src/net/tnfs_server.c: the session under READDIR and READDIRX.
use fdc_sds_pio.Tnfs.Proto.{readdirx_fixed}
use fdc_sds_pio.Prelude.{
  Bool-cases, Bytes, Option, [], arith, false, get_or, if◌then◌else◌, inl, inr, length, ltb, none,
  refl, some, suc, zero, ℕ, ◌%◌, ◌++◌, ◌+◌, ◌<◌, ◌==◌, ◌^◌, ◌∷◌, ◌≡◌, ◌≢◌, ◌≤◌,
}
use fdc_sds_pio.TnfsServer.Os.{Os}
use fdc_sds_pio.TnfsServer.State.{Dirslot, Entry, Session, name_cap, zero_slot}
use fdc_sds_pio.TnfsServer.Dirs.{dir_next}
use fdc_sds_pio.TnfsServer.Streams.{
  Batch, batch_from, batch_turn, body_cap, encode, h_readdir, h_readdirx, is_open, no_entries,
  readdir_done, readdirx_done,
}
use fdc_sds_pio.TnfsServer.Process.Keeps.{Handles, answered, Keeps-dirs, slot_back}
use fdc_sds_pio.TnfsServer.Process.Keeps.Streams.{dir_next_end, dir_next_name}

module _ {E : Type 0} (os : Os E) where
  turn_count :
      (rest : Batch → Dirslot → E → Batch × Dirslot × E)
      → ((b : Batch) (d : Dirslot) (e : E) → b.count ≤ (rest b d e).0.count)
      → (b : Batch) (r : Option Entry × Dirslot × E) → b.count ≤ (batch_turn rest b r).0.count
  unfolding batch_turn
  turn_count rest ih b (none, d, e) = omega arith
  turn_count rest ih b (some x, d, e) =
      let b1 = record b { bytes = b.bytes ++ encode x; count = b.count + 1 } in
      elim (Bool-cases (ltb body_cap (5 + length b.bytes + (readdirx_fixed + length x.name + 1)))) [
        | inl q ↦ rw q (omega arith)
        | inr q ↦ rw q (omega (arith, ih b1 d e))
      ]

  pub batch_count :
      (n : ℕ) (b : Batch) (d : Dirslot) (e : E) → b.count ≤ (batch_from os n b d e).0.count
  unfolding batch_from
  batch_count zero b d e = omega arith
  batch_count (suc n) b d e =
      turn_count (batch_from os n) (λ b1 d1 e1. batch_count n b1 d1 e1) b (dir_next os d e)

  pub h_readdir-Handles : (s : Session) (pl : Bytes) (e : E) → Handles s (h_readdir os s pl e)
  unfolding h_readdir readdir_done
  h_readdir-Handles s [] e = answered s
  h_readdir-Handles s (h ∷ pl) e = elim (Bool-cases (is_open s h)) [
    | inl q ↦ rw q (
        result (dir_next os (get_or s.dirs h zero_slot) e)
          (dir_next_end os (get_or s.dirs h zero_slot) e))
    | inr q ↦ rw q (answered s)
  ]
    where
      result :
          (r : Option Entry × Dirslot × E)
          → (r.0 ≡ none → r.1 ≡ get_or s.dirs h zero_slot)
          → Handles s (readdir_done s h r)
      result (none, d, e1) k = (Keeps-dirs s h d, λ _. slot_back s h d (k refl))
      result (some x, d, e1) k = (Keeps-dirs s h d, λ z. absurd (z refl))

  -- The first entry always fits, so the loop goes on with it.
  count_of :
      (n : ℕ) (x : Entry) (d : Dirslot) (e : E)
      → ltb body_cap (5 + 0 + (readdirx_fixed + length x.name + 1)) ≡ false
      → (batch_turn (batch_from os n) no_entries (some x, d, e)).0.count ≡ 0
      → (batch_from os n (record { bytes = encode x; count = 1; dstatus = 0 }) d e).0.count ≡ 0
  unfolding batch_turn
  count_of n x d e fits h = rw fits at h

  done-Handles :
      (s : Session) (h : ℕ) (b : Batch) (d : Dirslot) (e : E)
      → (b.count ≡ 0 → d ≡ get_or s.dirs h zero_slot)
      → Handles s (readdirx_done s h (b, d, e))
  unfolding readdirx_done
  done-Handles s h b d e k = elim (Bool-cases (b.count == 0)) [
    | inl q ↦ rw q (Keeps-dirs s h d, λ _. slot_back s h d (k (ground (arith, q))))
    | inr q ↦
        rw q (Keeps-dirs s h (record d { pos = (d.pos + b.count) % 2 ^ 16 }), λ z. absurd (z refl))
  ]

  -- A READDIRX that has no entry to give finds the slot at its end and leaves it so.
  first_turn :
      (n : ℕ) (d : Dirslot) (e : E) (r : Option Entry × Dirslot × E)
      → (r.0 ≡ none → r.1 ≡ d)
      → ((x : Entry) → r.0 ≡ some x → length x.name < name_cap)
      → (batch_turn (batch_from os n) no_entries r).0.count ≡ 0
      → (batch_turn (batch_from os n) no_entries r).1 ≡ d
  unfolding batch_turn
  first_turn n d e (none, d1, e1) back short h = back refl
  first_turn n d e (some x, d1, e1) back short h =
      let fits : ltb body_cap (5 + 0 + (readdirx_fixed + length x.name + 1)) ≡ false =
        ground (arith, short x refl) in
      let b1 : Batch = record { bytes = encode x; count = 1; dstatus = 0 } in
      absurd (omega (arith, batch_count n b1 d1 e1, count_of n x d1 e1 fits h))

  empty_batch :
      (n : ℕ) (d : Dirslot) (e : E)
      → n ≢ 0
      → (batch_from os n no_entries d e).0.count ≡ 0
      → (batch_from os n no_entries d e).1 ≡ d
  unfolding batch_from
  empty_batch zero d e z h = absurd (z refl)
  empty_batch (suc n) d e z h =
      first_turn n d e (dir_next os d e) (dir_next_end os d e) (dir_next_name os d e) h

  pub h_readdirx-Handles : (s : Session) (pl : Bytes) (e : E) → Handles s (h_readdirx os s pl e)
  unfolding h_readdirx
  h_readdirx-Handles s [] e = answered s
  h_readdirx-Handles s (h ∷ []) e = answered s
  h_readdirx-Handles s (h ∷ numwanted ∷ pl) e =
      let wanted = if numwanted == 0 then 1 else numwanted in
      let d = get_or s.dirs h zero_slot in
      elim (Bool-cases (is_open s h)) [
        | inl q ↦ rw q (
            result (batch_from os wanted no_entries d e)
              (empty_batch wanted d e (λ z. ground (arith, z))))
        | inr q ↦ rw q (answered s)
      ]
    where
      result :
          (r : Batch × Dirslot × E)
          → (r.0.count ≡ 0 → r.1 ≡ get_or s.dirs h zero_slot)
          → Handles s (readdirx_done s h r)
      result (b, d, e1) k = done-Handles s h b d e1 k
