-- ===== src/Samples/Worker.antt =====
-- The theorems on the transfers at sample values: one file, "hello", and a connection that takes everything.
use openps3ftp.Base.{
  ℕ, ◌≡◌, refl, false, some, [], ◌∷◌, ◌++◌, Bytes, codes, arith, length, drop, take-eq_of_le,
}
use openps3ftp.Session.{eio, Result, ok, err}
use openps3ftp.Worker.{Files, Channel, Sent, ready, accepted, bytes}
use openps3ftp.Worker.Moves.{transfer_retr, stor_loop}
use openps3ftp.Worker.Laws.{Passes, Yields, IsFaithful, IsReadable, IsPrompt, Succeeds, IsKeeping}
use openps3ftp.Worker.Retr.{IsSent, transfer_retr-IsSent}
use openps3ftp.Worker.Stor.{IsStored, stor_loop-IsStored}
use openps3ftp.Worker.Ends.{transfer_retr_serves}

-- what the peer has, and what is left of the file
abbrev pub World : Type 0
World = Bytes × Bytes

abbrev pub read_one : World → Result Bytes × World
read_one (o, []) = (ok [], (o, []))
read_one (o, x ∷ l) = (ok (x ∷ []), (o, l))

abbrev pub files : Files World
files = record {
  open_file = λ path flags mode w. (ok 3, (w.0, codes "hello"));
  close = λ fd w. w;
  read = λ fd n w. read_one w;
  write = λ fd b w. (err eio, w);
  seek = λ fd n w. (ok tt, (w.0, drop n (codes "hello")));
  fstat = λ fd w. (err eio, w);
}

abbrev pub channel : Channel World
channel = record {
  cancelled = λ w. (false, w);
  poll = λ b w. (ready, w);
  send = λ b w. (accepted (length b), (w.0 ++ b, w.1));
  recv = λ n w. (bytes [], w);
  tls_write = λ b w. (accepted (length b), (w.0 ++ b, w.1));
  tls_read = λ n w. (bytes [], w);
}

abbrev pub out : World → Bytes
out w = w.0

abbrev pub left : ℕ → World → Bytes
left fd w = w.1

pub read_one-Yields : (fd : ℕ) (w : World) → Yields out left fd w (read_one w)
read_one-Yields fd (o, []) = (refl, refl)
read_one-Yields fd (o, x ∷ l) = (omega arith, refl, refl)

takes_all :
    (fd : ℕ) (b : Bytes) (w : World) → Passes out left fd b w (accepted (length b), (w.0 ++ b, w.1))
takes_all fd b w = (omega arith, rw (take-eq_of_le (length b) b (omega arith)) refl)

channel-IsFaithful : IsFaithful out left files channel
channel-IsFaithful = record {
  carries = record {
    cancelled = λ fd w. refl;
    poll = λ fd b w. refl;
    send = takes_all;
    tls_write = takes_all;
  };
  read = read_one-Yields;
}

-- what the file holds
abbrev whole : ℕ → World → Bytes
whole fd w = codes "hello"

files-IsReadable : IsReadable out left whole (λ path w. codes "hello") files channel
files-IsReadable = record {
  opens = λ path w. refl;
  seeks = λ fd n w. refl;
  fstats = λ fd w. refl;
  closes = λ fd w. refl;
}

channel-IsPrompt : IsPrompt files channel
channel-IsPrompt = record {
  cancelled = λ w. refl;
  poll = λ b w. refl;
  send = λ b buf w. omega arith;
  tls_write = λ b buf w. omega arith;
  opens = λ path w. tt;
  seeks = λ fd n w. tt;
  reads = λ fd w. read_good w;
}
  where
    read_good : (w : World) → Succeeds (read_one w)
    read_good (o, []) = tt
    read_good (o, x ∷ l) = tt

abbrev pub start : World
start = ([], [])

transfer_retr-IsSent_example :
    IsSent out
      (drop 2 (codes "hello"))
      0
      start
      (transfer_retr files channel 2 4 false (codes "/a") 2 start)
transfer_retr-IsSent_example =
    transfer_retr-IsSent out left files channel channel-IsFaithful whole (λ path w. codes "hello")
      files-IsReadable 2 4 false (codes "/a") 2 start

transfer_retr_serves_example :
    let r = transfer_retr files channel 6 65536 false (codes "/a") 2 start in
    (r.0 ≡ some (ok tt))
    × (r.1 ≡ length (drop 2 (codes "hello")))
    × (out r.2 ≡ out start ++ drop 2 (codes "hello"))
transfer_retr_serves_example =
    transfer_retr_serves out left files channel channel-IsFaithful channel-IsPrompt whole
      (λ path w. codes "hello") files-IsReadable 6 65536 false (codes "/a") 2 start (omega arith)
      (omega arith)

-- a peer that sends "x" without end, and a file that takes everything; what is written, and what has arrived
abbrev sending : Channel World
sending = record {
  cancelled = λ w. (false, w);
  poll = λ b w. (ready, w);
  send = λ b w. (Sent.nothing, w);
  recv = λ n w. (bytes (codes "x"), (w.0, w.1 ++ codes "x"));
  tls_write = λ b w. (Sent.nothing, w);
  tls_read = λ n w. (bytes (codes "x"), (w.0, w.1 ++ codes "x"));
}

abbrev store : Files World
store = record {
  open_file = λ path flags mode w. (ok 3, w);
  close = λ fd w. w;
  read = λ fd n w. (err eio, w);
  write = λ fd b w. (ok (length b), (w.0 ++ b, w.1));
  seek = λ fd n w. (ok tt, w);
  fstat = λ fd w. (err eio, w);
}

abbrev pub written : ℕ → World → Bytes
written fd w = w.0

abbrev pub arrived : World → Bytes
arrived w = w.1

store-IsKeeping : IsKeeping written arrived store sending
store-IsKeeping = record {
  cancelled = λ fd w. refl;
  poll = λ fd b w. refl;
  recv = λ fd n w. refl;
  tls_read = λ fd n w. refl;
  writes = λ fd b w. (omega arith, rw (take-eq_of_le (length b) b (omega arith)) refl);
}

stor_loop-IsStored_example :
    IsStored written arrived 3 store sending store-IsKeeping 0 start
      (stor_loop store sending 4 2 false 3 0 start)
stor_loop-IsStored_example =
    stor_loop-IsStored written arrived 3 store sending store-IsKeeping 4 2 false 0 start
