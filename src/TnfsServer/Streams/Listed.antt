-- ===== src/TnfsServer/Streams/Listed.antt =====
-- src/net/tnfs_server.c: the replies to READDIRX and the listing.
use fdc_sds_pio.TnfsServer.Dirs.{dir_next, dir_stash, next_or_pending}
use fdc_sds_pio.TnfsServer.Files.{Handled, answer}
use fdc_sds_pio.Prelude.{
  Bool-cases, Bytes, List, Option, [], ap, arith, false, get_or, if◌then◌else◌, inl, inr, length,
  ltb, none, refl, some, suc, sym, true, zero, ℕ, ◌%◌, ◌++◌, ◌+◌, ◌<◌, ◌==◌, ◌^◌, ◌∙◌, ◌∷◌, ◌≡◌,
  ◌≢◌, ◌≤◌, ◌⊎◌,
}
use fdc_sds_pio.TnfsServer.Os.{Dirent, Os}
use fdc_sds_pio.TnfsServer.State.{Dirslot, Entry, Session, max_dirs, zero_slot}
use fdc_sds_pio.TnfsServer.Dirs.Listing.{DirLaws, remaining, shown}
use fdc_sds_pio.TnfsServer.Streams.{
  Batch, batch_from, batch_turn, body_cap, encode, h_readdirx, is_open, no_entries, put_slot,
  readdirx_done,
}
use fdc_sds_pio.TnfsServer.Streams.Batches.{
  IsBatch, Stopped, batch_from-IsBatch, batch_from_some, encode_all,
}
use fdc_sds_pio.TnfsServer.Sessions.Find.{get_or-set}
use fdc_sds_pio.Tnfs.Proto.{dirstatus_eof, readdirx_fixed, wr16}
use fdc_sds_pio.Tnfs.Status.{st_eof, st_ok}

abbrev pub slot_of : Session → ℕ → Dirslot
slot_of s h = get_or s.dirs h zero_slot

-- What a reply to READDIRX has of the listing. `given` are its entries.
pub record IsListed {E : Type 0} (os : Os E) (s : Session) (h numwanted : ℕ) (e : E) (r : Handled E)
    : Type 0 where
  pub given : List Entry
  -- They are the next ones, at least one unless nothing is left, and no more than were wanted,
  pub split : remaining os (slot_of s h) e ≡ given ++ remaining os (slot_of r.1 h) r.2
  pub nonempty : given ≡ [] → remaining os (slot_of s h) e ≡ []
  pub wanted : length given ≤ (if numwanted == 0 then 1 else numwanted)
  -- and fewer only where nothing is left or the next one does not fit the message;
  pub filled :
      length given < (if numwanted == 0 then 1 else numwanted)
      → (remaining os (slot_of r.1 h) r.2 ≡ [])
        ⊎ ((x : Entry) × (xs : List Entry) × (remaining os (slot_of r.1 h) r.2 ≡ x ∷ xs)
            × (body_cap < length r.0 + (readdirx_fixed + length x.name + 1)))
  -- the body is the end of the directory, or their number, whether the end is reached, the position
  -- of the first, and the entries one after another,
  pub eof_flag : ℕ
  pub body : r.0 ≡ (
      if length given == 0
      then st_eof ∷ []
      else st_ok ∷ length given ∷ eof_flag ∷ wr16 (slot_of s h).pos ++ encode_all given)
  pub at_end : eof_flag ≡ dirstatus_eof → remaining os (slot_of r.1 h) r.2 ≡ []
  -- and it fits the message.
  pub fitting : length r.0 ≤ body_cap
  -- The position goes on by their number.
  pub position : (slot_of r.1 h).pos ≡ ((slot_of s h).pos + length given) % 2 ^ 16

module _ {E : Type 0} (os : Os E) (laws : DirLaws os) where
  shown_at :
      (d : Dirslot) (p : ℕ) (xs : List Dirent) (e : E)
      → shown os (record d { pos = p }) xs e ≡ shown os d xs e
  unfolding shown
  shown_at d p [] e = refl
  shown_at d p (x ∷ xs) e = rw (shown_at d p xs e) refl

  remaining_at :
      (d : Dirslot) (p : ℕ) (e : E) → remaining os (record d { pos = p }) e ≡ remaining os d e
  remaining_at d p e = rw (shown_at d p (os.entries d.dir e) e) refl

  dir_next_pos : (d : Dirslot) (e : E) → (dir_next os d e).1.pos ≡ d.pos
  unfolding dir_next
  dir_next_pos d e = at d.pending
    where
      at : (p : Option Entry) → (next_or_pending os p d e).1.pos ≡ d.pos
      at none = refl
      at (some x) = refl

  turn_pos :
      (n : ℕ) (b : Batch) (r : Option Entry × Dirslot × E) (p : ℕ)
      → r.1.pos ≡ p
      → ((b1 : Batch) (d1 : Dirslot) (e1 : E) → (batch_from os n b1 d1 e1).1.pos ≡ d1.pos)
      → (batch_turn (batch_from os n) b r).1.pos ≡ p
  unfolding batch_turn dir_stash
  turn_pos n b (none, d, e) p h ih = h
  turn_pos n b (some x, d, e) p h ih =
      let b1 = record b { bytes = b.bytes ++ encode x; count = b.count + 1 } in
      elim (Bool-cases (ltb body_cap (5 + length b.bytes + (readdirx_fixed + length x.name + 1)))) [
        | inl q ↦ rw q h
        | inr q ↦ rw q (ih b1 d e ∙ h)
      ]

  batch_pos : (n : ℕ) (b : Batch) (d : Dirslot) (e : E) → (batch_from os n b d e).1.pos ≡ d.pos
  unfolding batch_from
  batch_pos zero b d e = refl
  batch_pos (suc n) b d e =
      turn_pos n b (dir_next os d e) d.pos (dir_next_pos d e) (λ b1 d1 e1. batch_pos n b1 d1 e1)

  stopped :
      (body : Bytes) (b : Batch) (d : Dirslot) (e : E)
      → length body ≡ 5 + length b.bytes
      → Stopped os (b, d, e)
      → (remaining os d e ≡ [])
        ⊎ ((x : Entry) × (xs : List Entry) × (remaining os d e ≡ x ∷ xs)
            × (body_cap < length body + (readdirx_fixed + length x.name + 1)))
  stopped body b d e h (inl q) = inl q
  stopped body b d e h (inr (x, xs, q, l)) = inr (x, xs, q, omega (arith, h, l))

  -- The reply at the end of the directory.
  empty_reply :
      (s : Session) (h numwanted : ℕ) (e e1 : E) (d : Dirslot)
      → h < length s.dirs
      → (slot_of s h).pos < 2 ^ 16
      → d.pos ≡ (slot_of s h).pos
      → remaining os (slot_of s h) e ≡ []
      → remaining os d e1 ≡ []
      → IsListed os s h numwanted e (answer st_eof (put_slot s h d) e1)
  empty_reply s h numwanted e e1 d below small p before after =
      let back = get_or-set s.dirs h d zero_slot below in
      record {
        given = [];
        split = rw (back, before, after) refl;
        nonempty = λ _. before;
        wanted = ground arith;
        filled = λ _. inl (rw (back, after) refl);
        eof_flag = 0;
        body = refl;
        at_end = λ z. absurd (omega (arith, z));
        fitting = omega arith;
        position = rw back (omega (arith, p, small));
      }

  -- A reply with entries.
  filled_reply :
      (s : Session) (h numwanted : ℕ) (e e1 : E) (b : Batch) (d : Dirslot)
      → h < length s.dirs
      → d.pos ≡ (slot_of s h).pos
      → (k : IsBatch os
          (if numwanted == 0 then 1 else numwanted)
          no_entries
          (remaining os (slot_of s h) e)
          (b, d, e1))
      → (b.count == 0) ≡ false
      → IsListed os s h numwanted e (
        st_ok ∷ b.count ∷ b.dstatus ∷ wr16 d.pos ++ b.bytes,
        put_slot s h (record d { pos = (d.pos + b.count) % 2 ^ 16 }),
        e1,
      )
  unfolding wr16
  filled_reply s h numwanted e e1 b d below p k some_given =
      let last : Dirslot = record d { pos = (d.pos + b.count) % 2 ^ 16 } in
      let back = get_or-set s.dirs h last zero_slot below in
      let count : b.count ≡ length k.given = omega (arith, k.counted) in
      let rest : remaining os last e1 ≡ remaining os d e1 =
        remaining_at d ((d.pos + b.count) % 2 ^ 16) e1 in
      record {
        given = k.given;
        split = rw (back, rest) k.split;
        nonempty = λ z. absurd (ground (arith, count, some_given, ap length z));
        wanted = k.wanted;
        filled = λ l.
            rw (back, rest)
              (stopped (st_ok ∷ b.count ∷ b.dstatus ∷ wr16 d.pos ++ b.bytes) b d e1 (omega arith)
                (k.filled l));
        eof_flag = b.dstatus;
        body = rw (← count, some_given, ← p, k.encoded) refl;
        at_end = λ z. rw (back, rest) (k.at_end z refl);
        fitting = omega (arith, k.fitting (omega arith));
        position = rw (back, ← count, ← p) refl;
      }

  no_rest : (xs ys : List Entry) → [] ≡ xs ++ ys → ys ≡ []
  no_rest [] ys h = sym h
  no_rest (x ∷ xs) ys h = absurd (cc)

  done-IsListed :
      (s : Session) (h numwanted : ℕ) (e : E) (r : Batch × Dirslot × E)
      → h < length s.dirs
      → (slot_of s h).pos < 2 ^ 16
      → r.1.pos ≡ (slot_of s h).pos
      → IsBatch os
          (if numwanted == 0 then 1 else numwanted)
          no_entries
          (remaining os (slot_of s h) e)
          r
      → (r.0.count ≡ 0 → remaining os (slot_of s h) e ≡ [])
      → IsListed os s h numwanted e (readdirx_done s h r)
  unfolding readdirx_done
  done-IsListed s h numwanted e (b, d, e1) below small p k empty =
      elim (Bool-cases (b.count == 0)) [
        | inl q ↦
            let before = empty (ground (arith, q)) in
            rw q (
              empty_reply s h numwanted e e1 d below small p before
                (no_rest k.given (remaining os d e1) (sym before ∙ k.split)))
        | inr q ↦ rw q (filled_reply s h numwanted e e1 b d below p k q)
      ]

  nothing_left :
      (wanted : ℕ) (d : Dirslot) (e : E)
      → wanted ≢ 0
      → (batch_from os wanted no_entries d e).0.count ≡ 0
      → remaining os d e ≡ []
  nothing_left zero d e z h = absurd (z refl)
  nothing_left (suc n) d e z h = at (remaining os d e) refl
    where
      at : (xs : List Entry) → remaining os d e ≡ xs → xs ≡ []
      at [] k = refl
      at (x ∷ xs) k = absurd (omega (arith, h, batch_from_some os laws n d e x xs k))

  -- READDIRX on an open directory gives the next entries of its listing, in order, none left out and
  -- none twice: as many as were wanted, or fewer where nothing more is left or the next one does not
  -- fit the message; where it gives none the listing is at its end, and
  -- the reply says so; and where the reply says that the end is reached, nothing is left. The reply
  -- fits the message, and the position goes on by the number of entries.
  pub h_readdirx-IsListed :
      (s : Session) (h numwanted : ℕ) (pl : Bytes) (e : E)
      → length s.dirs ≡ max_dirs
      → is_open s h ≡ true
      → (slot_of s h).pos < 2 ^ 16
      → IsListed os s h numwanted e (h_readdirx os s (h ∷ numwanted ∷ pl) e)
  unfolding h_readdirx is_open
  h_readdirx-IsListed s h numwanted pl e two opened small =
      let wanted = if numwanted == 0 then 1 else numwanted in
      let d = slot_of s h in
      let below : h < length s.dirs = ground (arith, two, opened) in
      rw opened (
        done-IsListed s h numwanted e (batch_from os wanted no_entries d e) below small
          (batch_pos wanted no_entries d e) (batch_from-IsBatch os laws wanted no_entries d e refl)
          (nothing_left wanted d e (λ z. ground (arith, z))))
