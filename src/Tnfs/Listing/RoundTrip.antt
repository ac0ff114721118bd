-- ===== src/Tnfs/Listing/RoundTrip.antt =====
-- src/net/tnfs.c and src/net/tnfs_server.c: the entries of a listing on both sides.
use fdc_sds_pio.TnfsServer.Streams.Listed.{h_readdirx-IsListed, slot_of}
use fdc_sds_pio.TnfsServer.Files.{Handled}
use fdc_sds_pio.TnfsServer.Dirs.Listing.{DirLaws, remaining}
use fdc_sds_pio.TnfsServer.Os.{Os}
use fdc_sds_pio.Tnfs.Status.{st_eof, st_ok}
use fdc_sds_pio.Prelude.{
  Bool, Bytes, List, [], ap, append_assoc, append_nil, arith, drop, false, get_or, if◌then◌else◌,
  leb, length, length-append, refl, some, suc, sym, true, zero, ℕ, ◌%◌, ◌++◌, ◌<◌, ◌==◌, ◌^◌, ◌∙◌,
  ◌∷◌, ◌≡◌, ◌≢◌,
}
use fdc_sds_pio.Sd.{has_byte}
use fdc_sds_pio.TnfsServer.State.{Entry, Session, max_dirs}
use fdc_sds_pio.TnfsServer.Paths.{memchr_nul, nul_after}
use fdc_sds_pio.TnfsServer.Streams.{encode, h_readdirx, is_open}
use fdc_sds_pio.TnfsServer.Streams.Batches.{encode_all, length-encode}
use fdc_sds_pio.Tnfs.Listing.{Calls, call_back, parse_entries, parse_named}
use fdc_sds_pio.Tnfs.Proto.{readdirx_fixed, wr16, wr32}

-- Every entry has a name, which holds no NUL.
abbrev pub AreNamed : List Entry → Type 0
AreNamed [] = Unit {0}
AreNamed (x ∷ xs) = (x.name ≢ []) × (has_byte 0 x.name ≡ false) × AreNamed xs

-- The calls that a listing is to make.
abbrev pub calls_of : List Entry → Calls
calls_of [] = []
calls_of (x ∷ xs) = (x.name, x.flags % 2 == 1) ∷ calls_of xs

memchr_nul-name :
    (name q : Bytes) → has_byte 0 name ≡ false → memchr_nul ((name ++ 0 ∷ []) ++ q) ≡ some (name, q)
unfolding memchr_nul nul_after has_byte
memchr_nul-name [] q h = refl
memchr_nul-name (zero ∷ name) q h = absurd (ground (arith, h))
memchr_nul-name (suc c ∷ name) q h = rw (memchr_nul-name name q (ground (arith, h))) refl

call_back_lem :
    (name : Bytes) (d : Bool) (calls : Calls)
    → name ≢ []
    → call_back name d calls ≡ calls ++ (name, d) ∷ []
unfolding call_back
call_back_lem [] d calls h = absurd (h refl)
call_back_lem (c ∷ name) d calls h = refl

-- The first entry of a text that the server has written.
parse_one :
    (n : ℕ) (x : Entry) (q : Bytes) (calls : Calls)
    → x.name ≢ []
    → has_byte 0 x.name ≡ false
    → parse_entries (suc n) (encode x ++ q) calls
      ≡ parse_entries n q (calls ++ (x.name, x.flags % 2 == 1) ∷ [])
unfolding parse_entries parse_named encode wr32
parse_one n x q calls named clean =
    let long : leb (length (encode x ++ q)) readdirx_fixed ≡ false =
      ground (arith, length-append (encode x) q, length-encode x) in
    rw (memchr_nul-name x.name q clean, call_back_lem x.name (x.flags % 2 == 1) calls named, long)
      refl

-- The loop of the client over the entries that the server has encoded gives every name and whether
-- it is a directory, in order, and reaches the end without an error.
pub parse_entries-encode_all :
    (es : List Entry) (calls : Calls)
    → AreNamed es
    → parse_entries (length es) (encode_all es) calls ≡ (true, calls ++ calls_of es)
unfolding parse_entries
parse_entries-encode_all [] calls h = ap (λ (c : Calls). (true, c)) (sym (append_nil calls))
parse_entries-encode_all (x ∷ es) calls (named, clean, h) =
    let made = calls ++ (x.name, x.flags % 2 == 1) ∷ [] in
    parse_one (length es) x (encode_all es) calls named clean
    ∙ parse_entries-encode_all es made h
    ∙ ap (λ (c : Calls). (true, c))
        (append_assoc calls ((x.name, x.flags % 2 == 1) ∷ []) (calls_of es))

named_left : (xs ys : List Entry) → AreNamed (xs ++ ys) → AreNamed xs
named_left [] ys h = tt
named_left (x ∷ xs) ys (a, b, h) = (a, b, named_left xs ys h)

-- What the client makes of a reply of the server to READDIRX: `body` stands behind the header.
pub record IsReadBack {E : Type 0} (os : Os E) (s : Session) (h : ℕ) (e : E) (r : Handled E)
    : Type 0 where
  pub given : List Entry
  -- The entries of the reply are the next ones of the listing, some unless it is at its end;
  pub split : remaining os (slot_of s h) e ≡ given ++ remaining os (slot_of r.1 h) r.2
  pub ended : given ≡ [] → (remaining os (slot_of s h) e ≡ []) × (r.0 ≡ st_eof ∷ [])
  -- the client calls back for each of them, in order, and finds no error.
  pub read_back :
      given ≢ []
      → (get_or r.0 0 0 ≡ st_ok)
        × ((calls : Calls)
            → parse_entries (get_or r.0 1 0) (drop 5 r.0) calls ≡ (true, calls ++ calls_of given))

filled_body :
    (given : List Entry) (status first : ℕ) (body : Bytes)
    → given ≢ []
    → AreNamed given
    → body ≡ (
        if length given == 0
        then st_eof ∷ []
        else st_ok ∷ length given ∷ status ∷ wr16 first ++ encode_all given)
    → (get_or body 0 0 ≡ st_ok)
      × ((calls : Calls)
          → parse_entries (get_or body 1 0) (drop 5 body) calls ≡ (true, calls ++ calls_of given))
unfolding wr16
filled_body [] status first body n named h = absurd (n refl)
filled_body (x ∷ es) status first body n named h =
    let some_given : (suc (length es) == 0) ≡ false = ground arith in
    rw (h, some_given) (refl, λ calls. parse_entries-encode_all (x ∷ es) calls named)

empty_body :
    (given : List Entry) (full : Bytes) (body : Bytes)
    → given ≡ []
    → body ≡ (if length given == 0 then st_eof ∷ [] else full)
    → body ≡ st_eof ∷ []
empty_body [] full body n h = h
empty_body (x ∷ es) full body n h = absurd (cc)

-- The listing that a client reads from this server is the one that the server has: what the client's
-- loop makes of a reply of h_readdirx is the next entries of the directory, their names and which of
-- them are directories, in order, and where the reply gives none the directory is at its end. The
-- names hold no NUL and none is empty.
pub h_readdirx-IsReadBack :
    {E : Type 0} (os : Os E) (laws : DirLaws os) (s : Session) (h numwanted : ℕ) (pl : Bytes)
    (e : E)
    → length s.dirs ≡ max_dirs
    → is_open s h ≡ true
    → (slot_of s h).pos < 2 ^ 16
    → AreNamed (remaining os (slot_of s h) e)
    → IsReadBack os s h e (h_readdirx os s (h ∷ numwanted ∷ pl) e)
h_readdirx-IsReadBack os laws s h numwanted pl e two opened small named =
    let k = h_readdirx-IsListed os laws s h numwanted pl e two opened small in
    let r = h_readdirx os s (h ∷ numwanted ∷ pl) e in
    let given_named : AreNamed k.given =
      named_left k.given (remaining os (slot_of r.1 h) r.2) (rw k.split at named) in
    record {
      given = k.given;
      split = k.split;
      ended = λ z. (
        k.nonempty z,
        empty_body k.given
            (st_ok ∷ length k.given ∷ k.eof_flag ∷ wr16 (slot_of s h).pos ++ encode_all k.given) r.0
            z k.body,
      );
      read_back = λ n. filled_body k.given k.eof_flag (slot_of s h).pos r.0 n given_named k.body;
    }
