-- ===== src/TnfsServer/Paths.antt =====
-- src/net/tnfs_server.c: the jail of a session's paths, and the C strings inside a request.
pub mod Jail
use fdc_sds_pio.Prelude.{
  Bytes, Option, [], if◌then◌else◌, inl, inr, leb, length, none, some, strlcpy, suc, zero, ℕ, ◌++◌,
  ◌==◌, ◌∷◌, ◌⊎◌,
}
use fdc_sds_pio.Sd.{mount_point, sd_path}
use fdc_sds_pio.TnfsServer.State.{Session, abs_cap}
use fdc_sds_pio.Tnfs.Status.{st_einval, st_enametoolong}

unfoldable pub nul_after : ℕ → Option (Bytes × Bytes) → Option (Bytes × Bytes)
nul_after c none = none
nul_after c (some (s, rest)) = some (c ∷ s, rest)

-- `memchr(p, '\0', n)`: the string in front of the NUL and what follows it.
unfoldable pub memchr_nul : Bytes → Option (Bytes × Bytes)
unfolding nul_after
memchr_nul [] = none
memchr_nul (zero ∷ p) = some ([], p)
memchr_nul (suc c ∷ p) = nul_after (suc c) (memchr_nul p)

-- `while (*req == '/') req++;`
unfoldable pub skip_slashes : Bytes → Bytes
skip_slashes [] = []
skip_slashes (c ∷ s) = let rest = skip_slashes s in if c == b'/' then rest else c ∷ s

unfoldable pub trim_at : ℕ → Bytes → Bytes
trim_at c [] = if c == b'/' then [] else c ∷ []
trim_at c (x ∷ t) = c ∷ x ∷ t

-- `while (l > 0 && rel[l - 1] == '/') rel[--l] = '\0';`
unfoldable pub trim_slashes : Bytes → Bytes
unfolding trim_at
trim_slashes [] = []
trim_slashes (c ∷ s) = trim_at c (trim_slashes s)

-- The path relative to the SD root, `none` where it is too long for its buffer.
unfoldable pub join_root : Bytes → Bytes → Option Bytes
join_root [] req = some (strlcpy abs_cap req)
join_root (c ∷ root) [] = some (strlcpy abs_cap (c ∷ root))
join_root (c ∷ root) (r ∷ req) =
    let rel = (c ∷ root) ++ b'/' ∷ r ∷ req in if leb abs_cap (length rel) then none else some rel

-- `sd_path(rel, abs, cap)` and its test.
unfoldable pub or_einval : Option Bytes → Bytes ⊎ ℕ
or_einval none = inr st_einval
or_einval (some abs) = inl abs

unfoldable pub jail : Bytes → ℕ → Bytes ⊎ ℕ
unfolding or_einval
jail [] cap = inl (strlcpy cap mount_point)
jail (c ∷ rel) cap = or_einval (sd_path (c ∷ rel) cap)

unfoldable pub trimmed : Option Bytes → ℕ → Bytes ⊎ ℕ
unfolding jail trim_slashes
trimmed none cap = inr st_enametoolong
trimmed (some rel) cap = jail (trim_slashes rel) cap

-- `resolve_path(s, req, abs, cap)`: the absolute path, or a status other than TNFS_OK.
unfoldable pub resolve_path : Session → Bytes → ℕ → Bytes ⊎ ℕ
unfolding join_root skip_slashes trimmed
resolve_path s req cap = trimmed (join_root s.root (skip_slashes req)) cap
