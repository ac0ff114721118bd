-- ===== src/TnfsServer/Streams/Batches.antt =====
-- src/net/tnfs_server.c: the loop of READDIRX and the listing.
use fdc_sds_pio.TnfsServer.Paths.Jail.{take_short}
use fdc_sds_pio.TnfsServer.Process.Keeps.Streams.{dir_next_name}
use fdc_sds_pio.TnfsServer.Process.Keeps.Batches.{batch_count}
use fdc_sds_pio.Prelude.{
  Bool-cases, Bytes, List, Option, [], ap, append_assoc, append_nil, arith, false, inl, inr, length,
  length-append, ltb, none, refl, some, strlcpy, suc, sym, zero, ℕ, ◌++◌, ◌+◌, ◌-◌, ◌<◌, ◌∙◌, ◌∷◌,
  ◌≡◌, ◌≤◌, ◌⊎◌,
}
use fdc_sds_pio.Prelude.{
  Bool-cases, Bytes, List, Option, [], ap, append_assoc, append_nil, arith, false, inl, inr, length,
  length-append, ltb, none, refl, some, strlcpy, suc, sym, zero, ℕ, ◌++◌, ◌+◌, ◌-◌, ◌<◌, ◌∙◌, ◌∷◌,
  ◌≡◌, ◌≤◌, ◌⊎◌,
}
use fdc_sds_pio.TnfsServer.Os.{Dirent, Os}
use fdc_sds_pio.TnfsServer.State.{Dirslot, Entry, name_cap}
use fdc_sds_pio.TnfsServer.Dirs.{dir_next, dir_stash}
use fdc_sds_pio.TnfsServer.Dirs.Listing.{
  DirLaws, IsHead, dir_next-IsHead, put_out, remaining, shown,
}
use fdc_sds_pio.TnfsServer.Streams.{Batch, batch_from, batch_turn, body_cap, encode, no_entries}
use fdc_sds_pio.Tnfs.Proto.{dirstatus_eof, readdirx_fixed, wr32}

abbrev pub encode_all : List Entry → Bytes
encode_all [] = []
encode_all (x ∷ xs) = encode x ++ encode_all xs

pub length-encode : (x : Entry) → length (encode x) ≡ readdirx_fixed + length x.name + 1
unfolding encode wr32
length-encode x = omega (arith, length-append x.name (0 ∷ []))

-- Nothing is left, or the next entry does not fit behind what is there.
abbrev pub Stopped : {E : Type 0} → Os E → Batch × Dirslot × E → Type 0
Stopped os (b, d, e) =
    (remaining os d e ≡ [])
    ⊎ ((x : Entry) × (xs : List Entry) × (remaining os d e ≡ x ∷ xs)
        × (body_cap < 5 + length b.bytes + (readdirx_fixed + length x.name + 1)))

-- What a loop of READDIRX has done: it has put out `es`, the next entries of the listing, and the
-- rest is still to come; and it says that the end is reached only where nothing is left.
pub record IsBatch {E : Type 0} (os : Os E) (n : ℕ) (b : Batch) (listing : List Entry)
    (r : Batch × Dirslot × E) : Type 0 where
  pub given : List Entry
  pub split : listing ≡ given ++ remaining os r.1 r.2
  pub encoded : r.0.bytes ≡ b.bytes ++ encode_all given
  pub counted : r.0.count ≡ b.count + length given
  pub wanted : length given ≤ n
  -- It stops short only at the end, or before an entry that does not fit.
  pub filled : length given < n → Stopped os r
  pub fitting : 5 + length b.bytes ≤ body_cap → 5 + length r.0.bytes ≤ body_cap
  pub at_end : r.0.dstatus ≡ dirstatus_eof → b.dstatus ≡ 0 → remaining os r.1 r.2 ≡ []

pending_none : (d d1 : Dirslot) → d1 ≡ record d { pending = none } → d1.pending ≡ none
pending_none d d1 h = ap (λ (s : Dirslot). s.pending) h

module _ {E : Type 0} (os : Os E) (laws : DirLaws os) where
  -- An entry that is put back stands in front again.
  shown_stash :
      (d : Dirslot) (p : Option Entry) (xs : List Dirent) (e : E)
      → shown os (record d { pending = p }) xs e ≡ shown os d xs e
  unfolding shown
  shown_stash d p [] e = refl
  shown_stash d p (x ∷ xs) e = rw (shown_stash d p xs e) refl

  stash_back :
      (d : Dirslot) (x : Entry) (xs : List Entry) (e : E)
      → d.pending ≡ none
      → length x.name < name_cap
      → remaining os d e ≡ xs
      → x ∷ xs ≡ remaining os (dir_stash d x) e
  unfolding dir_stash
  stash_back d x xs e n short h =
      let cut : strlcpy name_cap x.name ≡ x.name =
        take_short (name_cap - 1) x.name (omega (arith, short)) in
      let p : Option Entry = some (record x { name = strlcpy name_cap x.name }) in
      let rest : shown os d (os.entries d.dir e) e ≡ xs = without d.pending n h in
      let back : shown os (record d { pending = p }) (os.entries d.dir e) e ≡ xs =
        shown_stash d p (os.entries d.dir e) e ∙ rest in
      rw (back, cut, cut) refl
    where
      without :
          (p : Option Entry)
          → p ≡ none
          → put_out p ++ shown os d (os.entries d.dir e) e ≡ xs
          → shown os d (os.entries d.dir e) e ≡ xs
      without none k j = j
      without (some y) k j = absurd (cc)

  -- Nothing was put out.
  none_given :
      (n : ℕ) (b : Batch) (listing : List Entry) (status : ℕ) (d : Dirslot) (e : E)
      → listing ≡ remaining os d e
      → (status ≡ dirstatus_eof → b.dstatus ≡ 0 → remaining os d e ≡ [])
      → (0 < n → Stopped os (b, d, e))
      → IsBatch os n b listing (record b { dstatus = status }, d, e)
  none_given n b listing status d e h k stop = record {
    given = [];
    split = h;
    encoded = sym (append_nil b.bytes);
    counted = omega arith;
    wanted = omega arith;
    filled = λ l. stop l;
    fitting = λ l. l;
    at_end = k;
  }

  one_more :
      (n : ℕ) (b : Batch) (x : Entry) (xs : List Entry) (r : Batch × Dirslot × E)
      → ltb body_cap (5 + length b.bytes + (readdirx_fixed + length x.name + 1)) ≡ false
      → IsBatch os n (record b { bytes = b.bytes ++ encode x; count = b.count + 1 }) xs r
      → IsBatch os (suc n) b (x ∷ xs) r
  one_more n b x xs r fits k = record {
    given = x ∷ k.given;
    split = ap (◌∷◌ x) k.split;
    encoded = k.encoded ∙ append_assoc b.bytes (encode x) (encode_all k.given);
    counted = omega (arith, k.counted);
    wanted = omega (arith, k.wanted);
    filled = λ l. k.filled (omega (arith, l));
    fitting = λ l. k.fitting (room l);
    at_end = λ p q. k.at_end p q;
  }
    where
      room : 5 + length b.bytes ≤ body_cap → 5 + length (b.bytes ++ encode x) ≤ body_cap
      room l = ground (arith, length-append b.bytes (encode x), length-encode x, fits)

  turn-IsBatch :
      (n : ℕ) (b : Batch) (d : Dirslot) (listing : List Entry) (r : Option Entry × Dirslot × E)
      → b.dstatus ≡ 0
      → IsHead os d listing r
      → ((x : Entry) → r.0 ≡ some x → length x.name < name_cap)
      → ((b1 : Batch) (d1 : Dirslot) (e1 : E)
          → b1.dstatus ≡ 0
          → IsBatch os n b1 (remaining os d1 e1) (batch_from os n b1 d1 e1))
      → IsBatch os (suc n) b listing (batch_turn (batch_from os n) b r)
  unfolding batch_turn dir_stash
  turn-IsBatch n b d [] (none, d1, e1) z h short ih =
      none_given (suc n) b [] dirstatus_eof d1 e1 (sym h.2) (λ p q. h.2) (λ _. inl h.2)
  turn-IsBatch n b d [] (some y, d1, e1) z h short ih = absurd (cc)
  turn-IsBatch n b d (x ∷ xs) (none, d1, e1) z h short ih = absurd (cc)
  turn-IsBatch n b d (x ∷ xs) (some y, d1, e1) z h short ih =
      let same : y ≡ x = cc in
      let b1 = record b { bytes = b.bytes ++ encode x; count = b.count + 1 } in
      rw same
        (elim (Bool-cases
          (ltb body_cap (5 + length b.bytes + (readdirx_fixed + length x.name + 1)))) [
            | inl q ↦ rw q (
                let back =
                  stash_back d1 x xs e1 (pending_none d d1 h.1) (rw same at (short y refl)) h.2 in
                none_given (suc n) b (x ∷ xs) b.dstatus (dir_stash d1 x) e1 back
                  (λ p s. absurd (omega (arith, p, s)))
                  (λ _. inr (x, xs, sym back, ground (arith, q))))
            | inr q ↦
                rw q (one_more n b x xs (batch_from os n b1 d1 e1) q (rw h.2 at (ih b1 d1 e1 z)))
          ])

  -- Every run of the loop puts out the next entries of the listing.
  pub batch_from-IsBatch :
      (n : ℕ) (b : Batch) (d : Dirslot) (e : E)
      → b.dstatus ≡ 0
      → IsBatch os n b (remaining os d e) (batch_from os n b d e)
  unfolding batch_from
  batch_from-IsBatch zero b d e z =
      none_given 0 b (remaining os d e) b.dstatus d e refl (λ p s. absurd (omega (arith, p, s)))
        (λ l. absurd (omega (arith, l)))
  batch_from-IsBatch (suc n) b d e z =
      turn-IsBatch n b d (remaining os d e) (dir_next os d e) z (dir_next-IsHead os laws d e)
        (dir_next_name os d e) (λ b1 d1 e1 y. batch_from-IsBatch n b1 d1 e1 y)

  first_counts :
      (n : ℕ) (x : Entry) (r : Option Entry × Dirslot × E)
      → r.0 ≡ some x
      → length x.name < name_cap
      → 0 < (batch_turn (batch_from os n) no_entries r).0.count
  unfolding batch_turn
  first_counts n x (none, d1, e1) h short = absurd (cc)
  first_counts n x (some y, d1, e1) h short =
      let same : y ≡ x = cc in
      let fits : ltb body_cap (5 + 0 + (readdirx_fixed + length x.name + 1)) ≡ false =
        ground (arith, short) in
      let b1 : Batch = record { bytes = encode x; count = 1; dstatus = 0 } in
      rw (same, fits) (omega (arith, batch_count os n b1 d1 e1))

  -- A loop that may put something out has put something out where anything was left.
  pub batch_from_some :
      (n : ℕ) (d : Dirslot) (e : E) (x : Entry) (xs : List Entry)
      → remaining os d e ≡ x ∷ xs
      → 0 < (batch_from os (suc n) no_entries d e).0.count
  unfolding batch_from
  batch_from_some n d e x xs h =
      let head : IsHead os d (x ∷ xs) (dir_next os d e) = rw h at (dir_next-IsHead os laws d e) in
      first_counts n x (dir_next os d e) head.0 (dir_next_name os d e x head.0)
