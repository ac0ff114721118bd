-- ===== src/Tests/Card.antt =====
-- A card with one directory, and a network that keeps what is sent, for the TNFS server.
use fdc_sds_pio.Prelude.{
  Bytes, List, Option, [], codes, false, inr, length, negsuc, none, refl, some, sym, true, ℕ, ◌∷◌,
  ◌≡◌,
}
use fdc_sds_pio.TnfsServer.Os.{Dirent, Errno, Os, Peer, e_busy, e_noent, e_zero}
use fdc_sds_pio.TnfsServer.State.{Dirslot, Session, TnfsState, zero_session, zero_slot}
use fdc_sds_pio.TnfsServer.Dirs.Listing.{DirLaws, IsNext}

pub record Card : Type 0 where
  pub left : List Dirent
  pub clock : ℕ
  pub outbox : List Bytes
  pub err : Errno

abbrev next_entry : List Dirent → Card → Option Dirent × Card
next_entry [] e = (none, e)
next_entry (x ∷ xs) e = (some x, record e { left = xs })

abbrev pub card_os : Os Card
card_os = record {
  errno = λ e. e.err;
  set_errno = λ err e. record e { err = err };
  now_us = λ e. e.clock;
  sendto = λ bytes peer e. record e { outbox = bytes ∷ e.outbox };
  open_file = λ path of e. (some 5, e);
  read = λ fd n e. (some [], e);
  write = λ fd bytes e. (some (length bytes), e);
  lseek = λ fd off w e. (some 0, e);
  close = λ fd e. e;
  stat = λ path e. inr e_noent;
  mkdir = λ path e. (true, e);
  rmdir = λ path e. (true, e);
  unlink = λ path e. (true, e);
  rename = λ old new e. (true, e);
  opendir = λ path e. (7, e);
  readdir = λ d e. next_entry e.left e;
  rewinddir = λ d e. e;
  closedir = λ d e. e;
  entries = λ d e. e.left;
  disk_change_begin = λ path e. (negsuc 0, e);
  disk_change_end = λ e. e;
}

readdir-IsNext :
    (d : ℕ) (xs : List Dirent) (e : Card) → xs ≡ e.left → IsNext card_os d xs (next_entry xs e)
readdir-IsNext d [] e h = (refl, sym h)
readdir-IsNext d (x ∷ xs) e h = (refl, refl)

pub card_laws : DirLaws card_os
card_laws = record {
  readdir_law = λ d e. readdir-IsNext d e.left e refl;
  stat_law = λ path d e. refl;
}

abbrev pub card : Card
card = record {
  left =
      record { d_name = codes ".x"; d_dir = false }
      ∷ record { d_name = codes "a.dsk"; d_dir = false }
      ∷ record { d_name = codes "games"; d_dir = true }
      ∷ [];
  clock = 100;
  outbox = [];
  err = e_zero;
}

abbrev pub client : Peer
client = record { addr = 10; port = 4000 }

abbrev pub slot : Dirslot
slot = record zero_slot { in_use = true; dir = 7; abspath = codes "/sd/cpm" }

abbrev pub session : Session
session = record zero_session {
  live = true;
  sid = 5;
  peer = client;
  root = codes "cpm";
  dirs = slot ∷ zero_slot ∷ [];
}

abbrev pub server : TnfsState
server = record { sessions = session ∷ zero_session ∷ []; next_id = 6 }

-- A card that no call changes, where every call succeeds.
abbrev pub still_os : {E : Type 0} → Os E
still_os = record {
  errno = λ e. e_busy;
  set_errno = λ err e. e;
  now_us = λ e. 0;
  sendto = λ bytes peer e. e;
  open_file = λ path of e. (some 5, e);
  read = λ fd n e. (some [], e);
  write = λ fd bytes e. (some (length bytes), e);
  lseek = λ fd off w e. (some 0, e);
  close = λ fd e. e;
  stat = λ path e. inr e_noent;
  mkdir = λ path e. (true, e);
  rmdir = λ path e. (true, e);
  unlink = λ path e. (true, e);
  rename = λ old new e. (true, e);
  opendir = λ path e. (7, e);
  readdir = λ d e. (none, e);
  rewinddir = λ d e. e;
  closedir = λ d e. e;
  entries = λ d e. [];
  disk_change_begin = λ path e. (negsuc 0, e);
  disk_change_end = λ e. e;
}
