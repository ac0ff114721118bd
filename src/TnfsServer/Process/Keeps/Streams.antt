-- ===== src/TnfsServer/Process/Keeps/Streams.antt =====
-- src/net/tnfs_server.c: the session under the handlers of directories.
use fdc_sds_pio.Prelude.{
  Bool-cases, Bytes, Option, [], arith, drop, inl, inr, length, length-take, ltb, none, refl, some,
  strlcpy, suc, zero, ℕ, ◌++◌, ◌<◌, ◌==◌, ◌∷◌, ◌≡◌, ◌⊎◌,
}
use fdc_sds_pio.TnfsServer.Os.{Dirent, Errno, Os, Stat}
use fdc_sds_pio.TnfsServer.State.{Dirslot, Entry, Session, abs_cap, name_cap, zero_slot}
use fdc_sds_pio.TnfsServer.Paths.{memchr_nul, resolve_path}
use fdc_sds_pio.TnfsServer.Dirs.{
  bare_entry, dir_next, entry_of, free_dir, h_opendir, h_opendirx, is_visible, next_or_pending,
  next_turn, next_visible, opendir_named, opendir_resolved, opendir_slot, opendirx_path,
  opendirx_pattern, opendirx_resolved, opendirx_slot, opened_slot, pattern_of, stat_entry, turns,
}
use fdc_sds_pio.TnfsServer.Streams.{h_closedir, is_open}
use fdc_sds_pio.TnfsServer.Process.Keeps.{Handles, answered, Keeps-dirs}

module _ {E : Type 0} (os : Os E) where
  pub h_opendir-Handles : (s : Session) (pl : Bytes) (e : E) → Handles s (h_opendir os s pl e)
  unfolding h_opendir opendir_named opendir_resolved opendir_slot
  h_opendir-Handles s pl e = named (memchr_nul pl)
    where
      slotted : (i : Option ℕ) (abs : Bytes) → Handles s (opendir_slot os s i abs e)
      slotted none abs = answered s
      slotted (some i) abs = elim (Bool-cases ((os.opendir abs e).0 == 0)) [
        | inl q ↦ rw q (answered s)
        | inr q ↦
            rw q (Keeps-dirs s i (opened_slot (os.opendir abs e).0 abs []), λ h. absurd (h refl))
      ]

      resolved : (r : Bytes ⊎ ℕ) → Handles s (opendir_resolved os s r e)
      resolved (inr st) = answered s
      resolved (inl abs) = slotted (free_dir s.dirs 0) abs

      named : (p : Option (Bytes × Bytes)) → Handles s (opendir_named os s p e)
      named none = answered s
      named (some (path, _)) = resolved (resolve_path s path abs_cap)

  pub h_opendirx-Handles : (s : Session) (pl : Bytes) (e : E) → Handles s (h_opendirx os s pl e)
  unfolding h_opendirx opendirx_pattern opendirx_path opendirx_resolved opendirx_slot
  h_opendirx-Handles s pl e = elim (Bool-cases (ltb (length pl) 5)) [
    | inl q ↦ rw q (answered s)
    | inr q ↦ rw q (pattern_in (memchr_nul (drop 4 pl)))
  ]
    where
      slotted : (i : Option ℕ) (abs pat : Bytes) → Handles s (opendirx_slot os s i abs pat e)
      slotted none abs pat = answered s
      slotted (some i) abs pat = elim (Bool-cases ((os.opendir abs e).0 == 0)) [
        | inl q ↦ rw q (answered s)
        | inr q ↦ rw q (
          Keeps-dirs s i (opened_slot (os.opendir abs e).0 abs (pattern_of pat)),
          λ h. absurd (h refl),
        )
      ]

      resolved : (r : Bytes ⊎ ℕ) (pat : Bytes) → Handles s (opendirx_resolved os s r pat e)
      resolved (inr st) pat = answered s
      resolved (inl abs) pat = slotted (free_dir s.dirs 0) abs pat

      path_in : (pat : Bytes) (p : Option (Bytes × Bytes)) → Handles s (opendirx_path os s pat p e)
      path_in pat none = answered s
      path_in pat (some (path, _)) = resolved (resolve_path s path abs_cap) pat

      pattern_in : (p : Option (Bytes × Bytes)) → Handles s (opendirx_pattern os s p e)
      pattern_in none = answered s
      pattern_in (some (pat, rest)) = path_in pat (memchr_nul rest)

  pub h_closedir-Handles : (s : Session) (pl : Bytes) (e : E) → Handles s (h_closedir os s pl e)
  unfolding h_closedir
  h_closedir-Handles s [] e = answered s
  h_closedir-Handles s (h ∷ pl) e = elim (Bool-cases (is_open s h)) [
    | inl q ↦ rw q (Keeps-dirs s h zero_slot, λ k. absurd (k refl))
    | inr q ↦ rw q (answered s)
  ]

  -- The end of the directory leaves the slot as it is.
  pub dir_next_end : (d : Dirslot) (e : E) → (dir_next os d e).0 ≡ none → (dir_next os d e).1 ≡ d
  unfolding dir_next
  dir_next_end d e h = at d.pending h
    where
      at :
          (p : Option Entry)
          → (next_or_pending os p d e).0 ≡ none
          → (next_or_pending os p d e).1 ≡ d
      at none k = refl
      at (some x) k = absurd (cc)

  pub entry_name :
      (abspath : Bytes) (de : Dirent) (e : E) → length (entry_of os abspath de e).name < name_cap
  unfolding entry_of stat_entry bare_entry
  entry_name abspath de e = elim (Bool-cases (ltb (length (abspath ++ b'/' ∷ de.d_name)) abs_cap)) [
    | inl q ↦ rw q (at (os.stat (abspath ++ b'/' ∷ de.d_name) e))
    | inr q ↦ rw q (omega (arith, length-take 255 de.d_name))
  ]
    where
      at : (r : Stat ⊎ Errno) → length (stat_entry de r).name < name_cap
      at (inl st) = omega (arith, length-take 255 de.d_name)
      at (inr err) = omega (arith, length-take 255 de.d_name)

  turn_name :
      (d : Dirslot) (x : Entry) (rest : E → Option Entry × E)
      → ((e1 : E) → (rest e1).0 ≡ some x → length x.name < name_cap)
      → (r : Option Dirent) (e1 : E) → (next_turn os d rest (r, e1)).0 ≡ some x
      → length x.name < name_cap
  unfolding next_turn
  turn_name d x rest ih none e1 k = absurd (cc)
  turn_name d x rest ih (some de) e1 k = elim (Bool-cases (is_visible d.pattern de.d_name)) [
    | inl q ↦
        let same : entry_of os d.abspath de e1 ≡ x = ground (arith, k, q) in
        rw (← same) (entry_name d.abspath de e1)
    | inr q ↦ ih e1 (rw q at k)
  ]

  visible_name :
      (f : ℕ) (d : Dirslot) (e : E) (x : Entry)
      → (next_visible os f d e).0 ≡ some x
      → length x.name < name_cap
  unfolding next_visible
  visible_name zero d e x h = absurd (cc)
  visible_name (suc f) d e x h =
      turn_name d x (next_visible os f d) (λ e1 k. visible_name f d e1 x k) (os.readdir d.dir e).0
        (os.readdir d.dir e).1 h

  -- A name that dir_next puts out is shorter than its buffer.
  pub dir_next_name :
      (d : Dirslot) (e : E) (x : Entry) → (dir_next os d e).0 ≡ some x → length x.name < name_cap
  unfolding dir_next
  dir_next_name d e x h = at d.pending h
    where
      at : (p : Option Entry) → (next_or_pending os p d e).0 ≡ some x → length x.name < name_cap
      at none k = visible_name (turns os d e) d e x k
      at (some y) k =
          let same : record y { name = strlcpy name_cap y.name } ≡ x = cc in
          rw (← same) (omega (arith, length-take 255 y.name))
