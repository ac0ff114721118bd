-- ===== src/Tnfs.antt =====
-- src/net/tnfs.c: the test for a tnfs:// URL.
pub mod Cmd
pub mod Status
pub mod Proto
pub mod Url
pub mod Net
pub mod Framing
pub mod Client
pub mod Open
pub mod Blocks
pub mod Listing
use fdc_sds_pio.Prelude.{Bool, Bytes, [], codes, false, true, ◌&&◌, ◌==◌, ◌∷◌}
use fdc_sds_pio.Wildcard.{tolower}

-- `strncasecmp(s, prefix, strlen(prefix)) == 0`
unfoldable pub has_prefix_ci : Bytes → Bytes → Bool
unfolding tolower
has_prefix_ci [] s = true
has_prefix_ci (x ∷ p) [] = false
has_prefix_ci (x ∷ p) (c ∷ s) = tolower x == tolower c && has_prefix_ci p s

unfoldable pub tnfs_is_url : Bytes → Bool
unfolding has_prefix_ci
tnfs_is_url s = has_prefix_ci (codes "tnfs://") s
