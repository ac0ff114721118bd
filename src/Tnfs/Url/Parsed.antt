-- ===== src/Tnfs/Url/Parsed.antt =====
-- src/net/tnfs.c: what a parsed URL is.
use fdc_sds_pio.Prelude.{
  Bool-cases, Bytes, Option, Option-cases, [], ap, arith, drop, false, inl, inr, leb, length, ltb,
  none, refl, some, sym, true, ℕ, ◌*◌, ◌++◌, ◌+◌, ◌-◌, ◌<◌, ◌==◌, ◌||◌, ◌∷◌, ◌≡◌, ◌≢◌, ◌≤◌, ◌⊎◌,
}
use fdc_sds_pio.Tnfs.{tnfs_is_url}
use fdc_sds_pio.Tnfs.Proto.{tnfs_default_port}
use fdc_sds_pio.Tnfs.Url.{
  Url, cons_front, host_of, nonzero_port, parse_split, port_from, port_of, split_at, tnfs_url_parse,
  with_path,
}
use fdc_sds_pio.Sd.{first_is, has_byte}

-- The number that decimal digits spell, after `n`.
abbrev pub spelled : ℕ → Bytes → ℕ
spelled n [] = n
spelled n (d ∷ ds) = spelled (n * 10 + (d - b'0')) ds

abbrev pub IsDigits : Bytes → Type 0
IsDigits [] = Unit {0}
IsDigits (d ∷ ds) = (b'0' ≤ d) × (d ≤ b'9') × IsDigits ds

-- The authority of a URL: the host alone, and then the port is the default one, or the host, a colon
-- and digits that spell the port.
abbrev pub IsAuthority : Bytes → Url → Type 0
IsAuthority authority u =
    ((authority ≡ u.host) × (u.port ≡ tnfs_default_port))
    ⊎ ((digits : Bytes) × (authority ≡ u.host ++ b':' ∷ digits)
        × IsDigits digits
        × (u.port ≡ spelled 0 digits))

pub record IsUrl (url : Bytes) (host_cap path_cap : ℕ) (u : Url) : Type 0 where
  pub scheme : tnfs_is_url url ≡ true
  -- What follows the scheme is the authority and the path.
  pub authority : Bytes
  pub whole : drop 7 url ≡ authority ++ u.path
  pub from_authority : IsAuthority authority u
  -- The host is a name, without a colon or a slash, and fits its buffer.
  pub host_named : u.host ≢ []
  pub host_fits : length u.host < host_cap
  pub no_colon : has_byte b':' u.host ≡ false
  pub no_slash : has_byte b'/' authority ≡ false
  -- The port is one, and the path begins with a slash and fits its buffer.
  pub port_known : (0 < u.port) × (u.port ≤ 65535)
  pub path_absolute : first_is b'/' u.path ≡ true
  pub path_fits : length u.path < path_cap

-- Where a text is split.
abbrev IsSplit : ℕ → Bytes → Bytes × Bytes → Type 0
IsSplit c s (front, rest) =
    (s ≡ front ++ rest) × (has_byte c front ≡ false) × (first_is c rest ≡ true)

some_eq {ℓ} : {A : Type ℓ} (a b : A) → some a ≡ some b → a ≡ b
some_eq a b h = cc

inl_eq {ℓ} : {A B : Type ℓ} (a b : A) → ◌≡◌ {A = A ⊎ B} (inl a) (inl b) → a ≡ b
inl_eq a b h = cc

cons_front-IsSplit :
    (c x : ℕ) (s : Bytes) (o : Option (Bytes × Bytes)) (r : Bytes × Bytes)
    → ((p : Bytes × Bytes) → o ≡ some p → IsSplit c s p)
    → (x == c) ≡ false
    → cons_front x o ≡ some r
    → IsSplit c (x ∷ s) r
unfolding cons_front has_byte
cons_front-IsSplit c x s none r ih q h = absurd (cc)
cons_front-IsSplit c x s (some (front, rest)) (f1, r1) ih q h =
    let (e, clean, starts) = ih (front, rest) refl in
    let same : ◌≡◌ {A = Bytes × Bytes} (x ∷ front, rest) (f1, r1) = some_eq _ _ h in
    let same_front : x ∷ front ≡ f1 = ap (λ (p : Bytes × Bytes). p.0) same in
    let same_rest : rest ≡ r1 = ap (λ (p : Bytes × Bytes). p.1) same in
    rw (← same_front, ← same_rest) (ap (◌∷◌ x) e, rw q clean, starts)

split_at-IsSplit : (c : ℕ) (s : Bytes) (r : Bytes × Bytes) → split_at c s ≡ some r → IsSplit c s r
unfolding split_at has_byte
split_at-IsSplit c [] r h = absurd (cc)
split_at-IsSplit c (x ∷ s) (f1, r1) h = elim (Bool-cases (x == c)) [
  | inl q ↦
      let same : ◌≡◌ {A = Bytes × Bytes} ([], x ∷ s) (f1, r1) = some_eq _ _ (rw q at h) in
      let same_front : [] ≡ f1 = ap (λ (p : Bytes × Bytes). p.0) same in
      let same_rest : x ∷ s ≡ r1 = ap (λ (p : Bytes × Bytes). p.1) same in
      rw (← same_front, ← same_rest) (refl, refl, q)
  | inr q ↦
      cons_front-IsSplit c x s (split_at c s) (f1, r1) (λ p e. split_at-IsSplit c s p e) q
        (rw q at h)
]

-- Where there is no split, the byte does not stand in the text.
split_at-none : (c : ℕ) (s : Bytes) → split_at c s ≡ none → has_byte c s ≡ false
unfolding split_at has_byte cons_front
split_at-none c [] h = refl
split_at-none c (x ∷ s) h = elim (Bool-cases (x == c)) [
  | inl q ↦ absurd (ground (arith, q, h))
  | inr q ↦ elim (Option-cases (split_at c s)) [
    | inl e ↦ rw q (split_at-none c s e)
    | inr (r, e) ↦ absurd (ground (arith, q, e, h))
  ]
]

port_from_lem :
    (n : ℕ) (ds : Bytes) (p : ℕ)
    → n ≤ 65535
    → port_from n ds ≡ some p
    → IsDigits ds × (p ≡ spelled n ds) × (p ≤ 65535)
unfolding port_from
port_from_lem n [] p l h = let e : n ≡ p = some_eq n p h in (tt, sym e, omega (arith, e))
port_from_lem n (d ∷ ds) p l h = elim (Bool-cases (ltb d b'0' || ltb b'9' d)) [
  | inl q ↦ absurd (ground (arith, q, h))
  | inr q ↦ elim (Bool-cases (ltb 65535 (n * 10 + (d - b'0')))) [
    | inl r ↦ absurd (ground (arith, q, r, h))
    | inr r ↦
        let (a, b, c) =
          port_from_lem (n * 10 + (d - b'0')) ds p (ground (arith, r)) (rw (q, r) at h) in
        ((ground (arith, q), ground (arith, q), a), b, c)
  ]
]

-- What the last step gives.
record IsFinished (host path : Bytes) (path_cap : ℕ) (port : Option ℕ) (u : Url) : Type 0 where
  port_is : port ≡ some u.port
  host_is : host ≡ u.host
  path_is : path ≡ u.path
  fits : length path < path_cap

with_path_lem :
    (host path : Bytes) (path_cap : ℕ) (port : Option ℕ) (u : Url)
    → with_path host path path_cap port ≡ inl u
    → IsFinished host path path_cap port u
unfolding with_path
with_path_lem host path path_cap none u h = absurd (cc)
with_path_lem host path path_cap (some port) u h =
    elim (Bool-cases (length path == 0 || leb path_cap (length path))) [
      | inl q ↦ absurd (ground (arith, q, h))
      | inr q ↦
          let v : Url = record { host = host; port = port; path = path } in
          let same : v ≡ u = inl_eq v u (rw q at h) in
          rw (← same)
            (record { port_is = refl; host_is = refl; path_is = refl; fits = ground (arith, q) })
    ]

nonzero_port_lem : (o : Option ℕ) (p : ℕ) → nonzero_port o ≡ some p → (o ≡ some p) × (0 < p)
unfolding nonzero_port
nonzero_port_lem none p h = absurd (cc)
nonzero_port_lem (some n) p h = ground (arith, h)

-- The authority by its colon.
authority_lem :
    (authority : Bytes) (colon : Option (Bytes × Bytes)) (port : ℕ)
    → ((r : Bytes × Bytes) → colon ≡ some r → IsSplit b':' authority r)
    → (colon ≡ none → has_byte b':' authority ≡ false)
    → port_of colon ≡ some port
    → (((authority ≡ host_of authority colon) × (port ≡ tnfs_default_port))
        ⊎ ((digits : Bytes) × (authority ≡ host_of authority colon ++ b':' ∷ digits)
            × IsDigits digits
            × (port ≡ spelled 0 digits)))
      × (0 < port)
      × (port ≤ 65535)
      × (has_byte b':' (host_of authority colon) ≡ false)
unfolding port_of host_of
authority_lem authority none port split clean h =
    let e : tnfs_default_port ≡ port = some_eq tnfs_default_port port h in
    (inl (refl, sym e), omega (arith, e), omega (arith, e), clean refl)
authority_lem authority (some (host, [])) port split clean h = absurd (cc)
authority_lem authority (some (host, c ∷ digits)) port split clean h =
    let (whole, no_colon, starts) = split (host, c ∷ digits) refl in
    let at_colon : c ≡ b':' = ground (arith, starts) in
    let (found, positive) = nonzero_port_lem (port_from 0 digits) port h in
    let (all_digits, is_spelled, small) = port_from_lem 0 digits port (omega arith) found in
    (inr (digits, (rw at_colon at whole), all_digits, is_spelled), positive, small, no_colon)

accepted :
    (url : Bytes) (host_cap path_cap : ℕ) (u : Url) (authority path : Bytes)
    → tnfs_is_url url ≡ true
    → IsSplit b'/' (drop 7 url) (authority, path)
    → let host = host_of authority (split_at b':' authority) in
      (length host == 0 || leb host_cap (length host)) ≡ false
      → IsFinished host path path_cap (port_of (split_at b':' authority)) u
      → IsUrl url host_cap path_cap u
accepted url host_cap path_cap u authority path is_url (whole, no_slash, starts) r k =
    let colon = split_at b':' authority in
    let a =
      authority_lem authority colon u.port (λ p e. split_at-IsSplit b':' authority p e)
        (split_at-none b':' authority) k.port_is in
    let known : IsAuthority authority u = rw k.host_is at a.0 in
    record {
      scheme = is_url;
      authority = authority;
      whole = rw k.path_is at whole;
      from_authority = known;
      host_named = λ z. ground (arith, r, k.host_is, ap length z);
      host_fits = rw (← k.host_is) (ground (arith, r));
      no_colon = rw k.host_is at a.3;
      no_slash = no_slash;
      port_known = (a.1, a.2);
      path_absolute = rw k.path_is at starts;
      path_fits = rw k.path_is at k.fits;
    }

-- A URL that tnfs_url_parse accepts is the scheme, a host that is a name without a colon or a slash,
-- at most one port after a colon, in digits that spell it, from 1 to 65535, else 16384, and a path
-- from the first slash on; the host and the path fit their buffers with their terminators.
pub tnfs_url_parse-IsUrl :
    (url : Bytes) (host_cap path_cap : ℕ) (u : Url)
    → tnfs_url_parse url host_cap path_cap ≡ inl u
    → IsUrl url host_cap path_cap u
unfolding tnfs_url_parse parse_split
tnfs_url_parse-IsUrl url host_cap path_cap u h = elim (Bool-cases (tnfs_is_url url)) [
  | inr q ↦ absurd (ground (arith, q, h))
  | inl q ↦ elim (Option-cases (split_at b'/' (drop 7 url))) [
    | inl e ↦ absurd (ground (arith, q, e, h))
    | inr ((authority, path), e) ↦
        let host = host_of authority (split_at b':' authority) in
        elim (Bool-cases (length host == 0 || leb host_cap (length host))) [
          | inl r ↦ absurd (ground (arith, q, e, r, h))
          | inr r ↦
              accepted url host_cap path_cap u authority path q
                (split_at-IsSplit b'/' (drop 7 url) (authority, path) e) r
                (with_path_lem host path path_cap (port_of (split_at b':' authority)) u
                  (rw (q, e, r) at h))
        ]
  ]
]
