-- ===== src/TnfsServer/Dirs/Listing.antt =====
-- src/net/tnfs_server.c: what an open directory has still to give.
use fdc_sds_pio.Prelude.{
  Bool-cases, Bytes, List, Option, [], ap, arith, if◌then◌else◌, inl, inr, length, none, refl, some,
  strlcpy, suc, zero, ℕ, ◌++◌, ◌<◌, ◌∷◌, ◌≡◌,
}
use fdc_sds_pio.TnfsServer.Os.{Dirent, Os}
use fdc_sds_pio.TnfsServer.State.{Dirslot, Entry, name_cap}
use fdc_sds_pio.TnfsServer.Dirs.{
  dir_next, entry_of, is_visible, next_or_pending, next_turn, next_visible, turns,
}

-- readdir gives the entries of a stream one by one.
abbrev pub IsNext : {E : Type 0} → Os E → ℕ → List Dirent → Option Dirent × E → Type 0
IsNext os d [] (r, e) = (r ≡ none) × (os.entries d e ≡ [])
IsNext os d (x ∷ xs) (r, e) = (r ≡ some x) × (os.entries d e ≡ xs)

pub record DirLaws {E : Type 0} (os : Os E) : Type 0 where
  pub readdir_law : (d : ℕ) (e : E) → IsNext os d (os.entries d e) (os.readdir d e)
  -- It does not change a file.
  pub stat_law : (path : Bytes) (d : ℕ) (e : E) → os.stat path (os.readdir d e).1 ≡ os.stat path e

-- The entries that are shown, with their metadata.
unfoldable pub shown : {E : Type 0} → Os E → Dirslot → List Dirent → E → List Entry
shown os d [] e = []
shown os d (x ∷ xs) e =
    let rest = shown os d xs e in
    if is_visible d.pattern x.d_name then entry_of os d.abspath x e ∷ rest else rest

-- An entry as it is put out, its name cut to the buffer.
abbrev pub put_out : Option Entry → List Entry
put_out none = []
put_out (some x) = record x { name = strlcpy name_cap x.name } ∷ []

-- The listing that an open directory has still to give: what it has pending, then the rest of the
-- stream.
abbrev pub remaining : {E : Type 0} → Os E → Dirslot → E → List Entry
remaining os d e = put_out d.pending ++ shown os d (os.entries d.dir e) e

-- The head of a listing, with its slot and the rest of the listing after it.
abbrev pub IsHead : {E : Type 0} → Os E → Dirslot → List Entry → Option Entry × Dirslot × E → Type 0
IsHead os d [] (r, d1, e1) = (r ≡ none) × (d1 ≡ d) × (remaining os d1 e1 ≡ [])
IsHead os d (x ∷ xs) (r, d1, e1) =
    (r ≡ some x) × (d1 ≡ record d { pending = none }) × (remaining os d1 e1 ≡ xs)

module _ {E : Type 0} (os : Os E) (laws : DirLaws os) where
  entry_of_same :
      (abspath : Bytes) (de : Dirent) (e e1 : E)
      → ((p : Bytes) → os.stat p e1 ≡ os.stat p e)
      → entry_of os abspath de e1 ≡ entry_of os abspath de e
  unfolding entry_of
  entry_of_same abspath de e e1 h = rw (h (abspath ++ b'/' ∷ de.d_name)) refl

  shown_same :
      (d : Dirslot) (xs : List Dirent) (e e1 : E)
      → ((p : Bytes) → os.stat p e1 ≡ os.stat p e)
      → shown os d xs e1 ≡ shown os d xs e
  unfolding shown
  shown_same d [] e e1 h = refl
  shown_same d (x ∷ xs) e e1 h = rw (shown_same d xs e e1 h, entry_of_same d.abspath x e e1 h) refl

  -- The loop over readdir gives the first entry that is shown.
  abbrev IsShown : Dirslot → List Entry → Option Entry × E → Type 0
  IsShown d [] (r, e1) = (r ≡ none) × (shown os d (os.entries d.dir e1) e1 ≡ [])
  IsShown d (x ∷ xs) (r, e1) = (r ≡ some x) × (shown os d (os.entries d.dir e1) e1 ≡ xs)

  turn_at_end :
      (d : Dirslot) (rest : E → Option Entry × E) (r : Option Dirent) (e1 : E)
      → r ≡ none
      → os.entries d.dir e1 ≡ []
      → IsShown d [] (next_turn os d rest (r, e1))
  unfolding next_turn shown
  turn_at_end d rest none e1 h k = (refl, rw k refl)
  turn_at_end d rest (some y) e1 h k = absurd (cc)

  turn_at_entry :
      (d : Dirslot) (x : Dirent) (xs : List Dirent) (e : E) (rest : E → Option Entry × E)
      (r : Option Dirent) (e1 : E)
      → r ≡ some x
      → os.entries d.dir e1 ≡ xs
      → ((p : Bytes) → os.stat p e1 ≡ os.stat p e)
      → IsShown d (shown os d xs e1) (rest e1)
      → IsShown d (shown os d (x ∷ xs) e) (next_turn os d rest (r, e1))
  unfolding next_turn shown
  turn_at_entry d x xs e rest none e1 h k s ih = absurd (cc)
  turn_at_entry d x xs e rest (some y) e1 h k s ih =
      let same : y ≡ x = cc in
      rw same (elim (Bool-cases (is_visible d.pattern x.d_name)) [
        | inl q ↦ rw q (ap some (entry_of_same d.abspath x e e1 s), rw k (shown_same d xs e e1 s))
        | inr q ↦ rw q (rw (shown_same d xs e e1 s) at ih)
      ])

  next_visible-IsShown :
      (d : Dirslot) (xs : List Dirent) (f : ℕ) (e : E)
      → os.entries d.dir e ≡ xs
      → length xs < f
      → IsShown d (shown os d xs e) (next_visible os f d e)
  unfolding next_visible shown
  next_visible-IsShown d xs zero e h l = absurd (omega arith)
  next_visible-IsShown d [] (suc f) e h l =
      let (r, rest) = rw h at (laws.readdir_law d.dir e) in
      turn_at_end d (next_visible os f d) (os.readdir d.dir e).0 (os.readdir d.dir e).1 r rest
  next_visible-IsShown d (x ∷ xs) (suc f) e h l =
      let (r, rest) = rw h at (laws.readdir_law d.dir e) in
      let e1 = (os.readdir d.dir e).1 in
      turn_at_entry d x xs e (next_visible os f d) (os.readdir d.dir e).0 e1 r rest
        (λ p. laws.stat_law p d.dir e) (next_visible-IsShown d xs f e1 rest (omega arith))

  same_pending : (d : Dirslot) → d.pending ≡ none → d ≡ record d { pending = none }
  same_pending d n = ap (λ (p : Option Entry). record d { pending = p }) n

  -- The slot with nothing pending.
  after_visible :
      (d : Dirslot) (xs : List Entry) (r : Option Entry × E)
      → d.pending ≡ none
      → IsShown d xs r
      → IsHead os d xs (r.0, d, r.1)
  unfolding shown
  after_visible d [] (r, e1) n (a, b) = (a, refl, rw n b)
  after_visible d (x ∷ xs) (r, e1) n (a, b) = (a, same_pending d n, rw n b)

  -- dir_next gives the head of what the directory has still to give and leaves the rest, in order,
  -- and says that it is at the end exactly where nothing is left; the loop over readdir has always
  -- ended by then.
  pub dir_next-IsHead : (d : Dirslot) (e : E) → IsHead os d (remaining os d e) (dir_next os d e)
  unfolding dir_next shown
  dir_next-IsHead d e = at d.pending refl
    where
      at :
          (p : Option Entry)
          → d.pending ≡ p
          → IsHead os d (put_out p ++ shown os d (os.entries d.dir e) e) (next_or_pending os p d e)
      at none n =
          after_visible d (shown os d (os.entries d.dir e) e) (next_visible os (turns os d e) d e) n
            (next_visible-IsShown d (os.entries d.dir e) (turns os d e) e refl (omega arith))
      at (some x) n = (refl, refl, refl)
