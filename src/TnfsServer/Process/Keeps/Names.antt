-- ===== src/TnfsServer/Process/Keeps/Names.antt =====
-- src/net/tnfs_server.c: the session under the handlers of paths.
use fdc_sds_pio.Prelude.{Bool, Bool-cases, Bytes, Option, inl, inr, length, ltb, none, some, ℕ, ◌⊎◌}
use fdc_sds_pio.TnfsServer.Os.{Errno, Os, Stat}
use fdc_sds_pio.TnfsServer.State.{Session, abs_cap}
use fdc_sds_pio.TnfsServer.Paths.{memchr_nul, resolve_path}
use fdc_sds_pio.TnfsServer.Files.{is_refused}
use fdc_sds_pio.TnfsServer.Names.{
  h_pathop, h_rename, h_stat, pathop_named, pathop_resolved, rename_from, rename_resolved,
  rename_to, stat_done, stat_named, stat_resolved,
}
use fdc_sds_pio.TnfsServer.Process.Keeps.{Handles, answered}

module _ {E : Type 0} (os : Os E) where
  pub h_stat-Handles : (s : Session) (pl : Bytes) (e : E) → Handles s (h_stat os s pl e)
  unfolding h_stat stat_named stat_resolved stat_done
  h_stat-Handles s pl e = named (memchr_nul pl)
    where
      result : (r : Stat ⊎ Errno) → Handles s (stat_done s r e)
      result (inr err) = answered s
      result (inl sb) = answered s

      resolved : (r : Bytes ⊎ ℕ) → Handles s (stat_resolved os s r e)
      resolved (inr st) = answered s
      resolved (inl abs) = result (os.stat abs e)

      named : (p : Option (Bytes × Bytes)) → Handles s (stat_named os s p e)
      named none = answered s
      named (some (path, _)) = resolved (resolve_path s path abs_cap)

  pub h_pathop-Handles :
      (s : Session) (pl : Bytes) (op : Bytes → E → Bool × E) (e : E)
      → Handles s (h_pathop os s pl op e)
  unfolding h_pathop pathop_named pathop_resolved
  h_pathop-Handles s pl op e = named (memchr_nul pl)
    where
      resolved : (r : Bytes ⊎ ℕ) → Handles s (pathop_resolved os s op r e)
      resolved (inr st) = answered s
      resolved (inl abs) = answered s

      named : (p : Option (Bytes × Bytes)) → Handles s (pathop_named os s op p e)
      named none = answered s
      named (some (path, _)) = resolved (resolve_path s path abs_cap)

  pub h_rename-Handles : (s : Session) (pl : Bytes) (e : E) → Handles s (h_rename os s pl e)
  unfolding h_rename rename_from rename_to rename_resolved
  h_rename-Handles s pl e = elim (Bool-cases (ltb (length pl) 2)) [
    | inl q ↦ rw q (answered s)
    | inr q ↦ rw q (first (memchr_nul pl))
  ]
    where
      resolved : (old new : Bytes ⊎ ℕ) → Handles s (rename_resolved os s old new e)
      resolved (inr st) new = answered s
      resolved (inl oabs) (inr st) = answered s
      resolved (inl oabs) (inl nabs) =
          elim (Bool-cases (is_refused (os.disk_change_begin oabs e).0)) [
            | inl q ↦ rw q (answered s)
            | inr q ↦ rw q (answered s)
          ]

      second : (oldp : Bytes) (p : Option (Bytes × Bytes)) → Handles s (rename_to os s oldp p e)
      second oldp none = answered s
      second oldp (some (newp, _)) =
          resolved (resolve_path s oldp abs_cap) (resolve_path s newp abs_cap)

      first : (p : Option (Bytes × Bytes)) → Handles s (rename_from os s p e)
      first none = answered s
      first (some (oldp, rest)) = second oldp (memchr_nul rest)
