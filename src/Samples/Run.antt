-- ===== src/Samples/Run.antt =====
-- The theorems on listings, on the copy of a tree and on the run of a job at sample values.
use openps3ftp.Base.{
  ℕ, ltb, str_eq, subst, ap, zero, suc, ◌≡◌, refl, Bool, true, false, Option, none, some, List, [],
  ◌∷◌, ◌++◌, Bytes, codes, All, length, take-eq_of_le, arith,
}
use openps3ftp.Session.{Stat, enoent, eio, Result, ok, err, Dirent, Job, Fs, unspec}
use openps3ftp.Worker.{Files, Channel, Sent, ready, accepted, bytes}
use openps3ftp.Worker.Retr.{IsSent}
use openps3ftp.Worker.Directory.{Dirs, transfer_list}
use openps3ftp.Worker.Listed.{Lists, entry_line, transfer_list-IsSent}
use openps3ftp.Worker.Walk.{transfer_copy}
use openps3ftp.Worker.Confined.{Within}
use openps3ftp.Worker.Confined.Tree.{transfer_copy-keeps}
use openps3ftp.Path.Tokens.{IsToken}
use openps3ftp.Connect.{Dial, connected, connect_job}
use openps3ftp.Run.{Tls, Rounds, hs_done, transfer_run, attempt}
use openps3ftp.Run.Reply.{Answered, Succeeded, transfer_run-Answered, transfer_run-Succeeded}
use openps3ftp.Samples.{sample_job}
use openps3ftp.Samples.Worker.{World, files, channel, start}
use openps3ftp.Samples.Copy.{empty_fs}

-- what the client has, and how often the entry is still to be read
abbrev Reading : Type 0
Reading = Bytes × ℕ

abbrev entry : Dirent
entry = record { name = codes "x"; mode = 33188; size = 5; mtime = 0; uid = 0; gid = 0 }

abbrev read_next : Reading → Result (Option Dirent) × Reading
read_next (o, zero) = (ok none, (o, zero))
read_next (o, suc n) = (ok (some entry), (o, n))

abbrev dirs : Dirs Reading
dirs = record { readdir = λ dir w. read_next w; localtime = λ t. none }

abbrev folder : Fs Reading
folder = record {
  stat = λ path w. (ok (record { mode = 16877; size = 0; mtime = 0; uid = 0; gid = 0 }), w);
  opendir = λ path w. (ok 1, (w.0, 1));
  readdir_all = λ dir w. ([], w);
  closedir = λ dir w. w;
  mkdir = λ path mode w. (err eio, w);
  rmdir = λ path w. (err eio, w);
  unlink = λ path w. (err eio, w);
  rename = λ a b w. (err eio, w);
  chmod = λ path mode w. (err eio, w);
  utimes = λ path t w. (err eio, w);
}

abbrev reader : Channel Reading
reader = record {
  cancelled = λ w. (false, w);
  poll = λ b w. (ready, w);
  send = λ b w. (accepted (length b), (w.0 ++ b, w.1));
  recv = λ n w. (bytes [], w);
  tls_write = λ b w. (accepted (length b), (w.0 ++ b, w.1));
  tls_read = λ n w. (bytes [], w);
}

abbrev out : Reading → Bytes
out w = w.0

abbrev text_of : ℕ → Bytes
text_of zero = []
text_of (suc n) = entry_line dirs.localtime false true entry ++ text_of n

reads :
    (w : Reading) → Lists out (λ dir w. text_of w.1) folder dirs reader false true 1 w (read_next w)
reads (o, zero) = (refl, refl)
reads (o, suc n) = (refl, refl, omega arith)

transfer_list-IsSent_example :
    IsSent out
      (text_of 1)
      0
      ([], 0)
      (transfer_list folder dirs reader 9 9 false false true (codes "/a") ([], 0))
transfer_list-IsSent_example =
    transfer_list-IsSent out (λ dir w. text_of w.1) folder dirs reader false true
      (record {
        cancelled = λ fd w. refl;
        poll = λ fd b w. refl;
        send = λ fd b w. (omega arith, rw (take-eq_of_le (length b) b (omega arith)) refl);
        tls_write = λ fd b w. (omega arith, rw (take-eq_of_le (length b) b (omega arith)) refl);
      })
      (λ w h. h) (λ path w. text_of 1)
      (record {
        readdirs = λ dir w. reads w;
        opens = λ path w. refl;
        closes = λ dir w. refl;
        stats = λ path w. (refl, refl, λ e. absurd cc);
      })
      9 9 false (codes "/a") ([], 0)

-- a copy from "/s" to "/d" in a world that lists the paths that were changed
abbrev Changed : Type 0
Changed = List Bytes

abbrev source_only : Bool → Result Stat
source_only true = ok (record { mode = 16877; size = 0; mtime = 0; uid = 0; gid = 0 })
source_only false = err enoent

abbrev tracked : Fs Changed
tracked = record {
  stat = λ path w. (source_only (str_eq path (codes "/s")), w);
  opendir = λ path w. (ok 1, w);
  readdir_all = λ dir w. ([], w);
  closedir = λ dir w. w;
  mkdir = λ path mode w. (ok tt, path ∷ w);
  rmdir = λ path w. (err eio, w);
  unlink = λ path w. (ok tt, path ∷ w);
  rename = λ a b w. (err eio, w);
  chmod = λ path mode w. (err eio, w);
  utimes = λ path t w. (err eio, w);
}

-- the source has one entry, until something but the destination itself has been made
abbrev next_entry : Bool → Result (Option Dirent)
next_entry true = ok (some entry)
next_entry false = ok none

abbrev one_file : Dirs Changed
one_file = record { readdir = λ dir w. (next_entry (ltb (length w) 2), w); localtime = λ t. none }

abbrev name_of : Result (Option Dirent) → Bytes
name_of (ok (some de)) = de.name
name_of (ok none) = []
name_of (err e) = []

entry_name :
    (b : Bool) (w w' : Changed) (de : Dirent)
    → ◌≡◌ {A = Result (Option Dirent) × Changed} (next_entry b, w) (ok (some de), w')
    → IsToken de.name
entry_name true w w' de h =
    subst IsToken (ap (λ (r : Result (Option Dirent) × Changed). name_of r.0) h)
      ((λ e. cc), ((λ e. absurd (omega (arith, e))), tt))
entry_name false w w' de h =
    let bad : ok none ≡ ok (some de) = ap (λ (r : Result (Option Dirent) × Changed). r.0) h in
    absurd cc

-- what is opened to be read has no flag that writes
abbrev opened : Bool → Bytes → Changed → Result ℕ × Changed
opened true path w = (ok 4, path ∷ w)
opened false path w = (ok 3, w)

abbrev tracked_files : Files Changed
tracked_files = record {
  open_file = λ path flags mode w. opened flags.writes path w;
  close = λ fd w. w;
  read = λ fd n w. (ok [], w);
  write = λ fd b w. (ok (length b), w);
  seek = λ fd n w. (ok tt, w);
  fstat = λ fd w. (err eio, w);
}

abbrev quiet : Channel Changed
quiet = record {
  cancelled = λ w. (false, w);
  poll = λ b w. (ready, w);
  send = λ b w. (Sent.nothing, w);
  recv = λ n w. (bytes [], w);
  tls_write = λ b w. (Sent.nothing, w);
  tls_read = λ n w. (bytes [], w);
}

-- only paths below the destination were changed
abbrev Inside : Changed → Type 0
Inside = All (Within (codes "/d"))

-- the directory is made, and the file in it
both_made :
    transfer_copy tracked one_file tracked_files quiet (codes "/s") (codes "/d") 3 3 3 3 []
    ≡ (some (ok tt), 0, codes "/d/x" ∷ codes "/d" ∷ [])
unfolding transfer_copy
both_made = refl

transfer_copy-keeps_example :
    Inside
      (transfer_copy tracked one_file tracked_files quiet (codes "/s") (codes "/d") 3 3 3 3 []).2
transfer_copy-keeps_example =
    transfer_copy-keeps Inside tracked one_file tracked_files quiet (codes "/s") (codes "/d")
      (record {
        cancelled = λ w h. h;
        reads = λ fd w h. h;
        writes = λ fd b w h. h;
        closes = λ fd w h. h;
        readdirs = λ dir w h. h;
        names = λ dir w w' de e. entry_name (ltb (length w) 2) w w' de e;
        closedirs = λ dir w h. h;
        src_stats = λ path w i h. h;
        dst_stats = λ path w i h. h;
        opendirs = λ path w i h. h;
        opens = λ path w i h. h;
        creates = λ path w i h. (i, h);
        mkdirs = λ path w i h. (i, h);
        unlinks = λ path w i h. (i, h);
      })
      3 3 3 3 [] tt

-- a download over a listener that a client of the right host reaches
abbrev dial : Dial World
dial = record {
  poll = λ fd b w. (ready, w);
  cancelled = λ w. (false, w);
  accept = λ fd w. (ok (9, unspec), w);
  socket = λ a w. (ok 9, w);
  connect = λ fd a w. (connected, w);
  so_error = λ fd w. (none, w);
}

abbrev tls : Tls World
tls = record {
  session_create = λ fd w. (true, w);
  handshake = λ w. (hs_done, w);
  close_notify = λ w. (hs_done, w);
  wait = λ b w. (true, w);
  free = λ w. w;
}

abbrev no_entries : Dirs World
no_entries = record { readdir = λ dir w. (ok none, w); localtime = λ t. none }

abbrev download : Job
download = record sample_job { conn_ok = false; pasv_fd = some 6; need_tls = true; posted = false }

abbrev rounds : Rounds
rounds = record { handshakes = 2; directories = 2; entries = 2; chunks = 7; sends = 7 }

abbrev after : Option Job × ℕ × World
after = transfer_run dial tls empty_fs no_entries files channel rounds true true download start

abbrev posted_job : Job
posted_job = record download { conn_ok = true; data_fd = some 9; posted = true }

is_posted : after.0 ≡ some posted_job
unfolding transfer_run connect_job
is_posted = refl

transfer_run-Answered_example :
    Answered dial tls empty_fs no_entries files channel rounds true
      (attempt dial tls empty_fs no_entries files channel true download start)
      after
      posted_job
transfer_run-Answered_example =
    transfer_run-Answered dial tls empty_fs no_entries files channel rounds true true download
      posted_job start refl is_posted

transfer_run-Succeeded_example :
    Succeeded dial tls empty_fs no_entries files channel rounds true
      (attempt dial tls empty_fs no_entries files channel true download start)
      after
transfer_run-Succeeded_example =
    transfer_run-Succeeded dial tls empty_fs no_entries files channel rounds true true download
      posted_job start is_posted refl
