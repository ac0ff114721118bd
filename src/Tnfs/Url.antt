-- ===== src/Tnfs/Url.antt =====
-- src/net/tnfs.c: the parser of a tnfs:// URL.
pub mod Parsed
use fdc_sds_pio.Prelude.{
  Bytes, Option, [], drop, if◌then◌else◌, inl, inr, leb, length, ltb, none, not, some, ℕ, ◌*◌, ◌+◌,
  ◌-◌, ◌==◌, ◌||◌, ◌∷◌, ◌⊎◌,
}
use fdc_sds_pio.Esp.{Esp, err_invalid_arg}
use fdc_sds_pio.Tnfs.{tnfs_is_url}
use fdc_sds_pio.Tnfs.Proto.{tnfs_default_port}

-- What the parser writes through its pointers.
pub record Url : Type 0 where
  pub host : Bytes
  pub port : ℕ
  pub path : Bytes

unfoldable pub cons_front : ℕ → Option (Bytes × Bytes) → Option (Bytes × Bytes)
cons_front x none = none
cons_front x (some (front, rest)) = some (x ∷ front, rest)

-- `strchr(p, c)` or `memchr`: what stands in front of the first `c`, and the text from it on.
unfoldable pub split_at : ℕ → Bytes → Option (Bytes × Bytes)
unfolding cons_front
split_at c [] = none
split_at c (x ∷ s) =
    let rest = cons_front x (split_at c s) in if x == c then some ([], x ∷ s) else rest

-- The loop over the digits of the port, `pn` what it has read.
unfoldable pub port_from : ℕ → Bytes → Option ℕ
port_from pn [] = some pn
port_from pn (d ∷ ds) =
    let rest = port_from (pn * 10 + (d - b'0')) ds in
    if ltb d b'0' || ltb b'9' d
    then none
    else if ltb 65535 (pn * 10 + (d - b'0'))
    then none
    else rest

unfoldable pub nonzero_port : Option ℕ → Option ℕ
nonzero_port none = none
nonzero_port (some pn) = if pn == 0 then none else some pn

-- The port: the default one where there is no colon, and the number after it where there is.
unfoldable pub port_of : Option (Bytes × Bytes) → Option ℕ
unfolding nonzero_port port_from
port_of none = some tnfs_default_port
port_of (some (_, [])) = none
port_of (some (_, colon ∷ digits)) = nonzero_port (port_from 0 digits)

-- The host is what stands in front of the colon, or of the slash.
unfoldable pub host_of : Bytes → Option (Bytes × Bytes) → Bytes
host_of authority none = authority
host_of authority (some (host, _)) = host

unfoldable pub with_path : Bytes → Bytes → ℕ → Option ℕ → Url ⊎ Esp
with_path host path path_cap none = inr err_invalid_arg
with_path host path path_cap (some port) =
    if length path == 0 || leb path_cap (length path)
    then inr err_invalid_arg
    else inl (record { host = host; port = port; path = path })

-- From the slash on: `authority` is what stands in front of it.
unfoldable pub parse_split : ℕ → ℕ → Option (Bytes × Bytes) → Url ⊎ Esp
unfolding with_path host_of port_of split_at
parse_split host_cap path_cap none = inr err_invalid_arg
parse_split host_cap path_cap (some (authority, path)) =
    let colon = split_at b':' authority in
    let host = host_of authority colon in
    if length host == 0 || leb host_cap (length host)
    then inr err_invalid_arg
    else with_path host path path_cap (port_of colon)

-- `tnfs_url_parse(url, host, host_cap, port, path, path_cap)`
unfoldable pub tnfs_url_parse : Bytes → ℕ → ℕ → Url ⊎ Esp
unfolding parse_split tnfs_is_url
tnfs_url_parse url host_cap path_cap =
    if not (tnfs_is_url url)
    then inr err_invalid_arg
    else parse_split host_cap path_cap (split_at b'/' (drop 7 url))
