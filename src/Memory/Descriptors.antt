-- ===== src/Memory/Descriptors.antt =====
-- src/fs_mem.c: the operations on descriptors, and `mem_open`. Each is given the time where it reads it.
use openps3ftp.Base.{
  ℕ, zero, suc, ◌+◌, ◌-◌, ◌/◌, ◌%◌, Bool, true, false, Option, none, some, List, [], ◌∷◌, ◌++◌,
  ◌>>=◌, if◌then◌else◌, ◌==◌, ltb, Bytes, length, get_elem?, set, take, drop, replicate,
}
use openps3ftp.Session.{einval, eisdir, enoent, enotdir, Result, ok, err, Stat}
use openps3ftp.Listing.{is_dir}
use openps3ftp.Memory.{
  Mnode, Mfd, Mctx, ebadf, emfile, modify, node_lookup, node_lookup_parent, add_node,
}

-- `flags & bit`, for a power of two
abbrev pub has_bit : ℕ → ℕ → Bool
has_bit flags bit = flags / bit % 2 == 1

-- `mask | mode`, for a power of two
abbrev pub or_bit : ℕ → ℕ → ℕ
or_bit mask mode = if has_bit mode mask then mode else mode + mask

-- OPFTP_O_RDONLY, OPFTP_O_WRONLY; OPFTP_O_CREAT, OPFTP_O_TRUNC, OPFTP_O_APPEND
abbrev pub rdonly : ℕ
rdonly = 1

abbrev pub wronly : ℕ
wronly = 2

abbrev pub creat : ℕ
creat = 64

abbrev pub trunc : ℕ
trunc = 512

abbrev pub append : ℕ
append = 1024

abbrev pub or_default : ℕ → ℕ → ℕ
or_default default mode = if mode == 0 then default else mode

-- the file to open, new when O_CREAT allows it
abbrev pub create_in : ℕ → ℕ → Mctx → Result (ℕ × Bytes) → Result ℕ × Mctx
create_in now mode m (err e) = (err e, m)
create_in now mode m (ok (p, name)) =
    if is_dir (m.nodes p).mode
    then (ok m.next_node, add_node now p name (or_bit 32768 (or_default 420 mode)) m)
    else (err enotdir, m)

unfoldable pub find_or_create : ℕ → Bytes → ℕ → ℕ → Mctx → Result ℕ × Mctx
unfolding node_lookup node_lookup_parent add_node
find_or_create now path flags mode m = elim (node_lookup m path) [
  | some n ↦ (ok n, m)
  | none ↦
      if has_bit flags creat
      then create_in now mode m (node_lookup_parent m path)
      else (err enoent, m)
]

-- the first slot that is not in use, the given number being that of the first of the list
unfoldable pub free_slot : ℕ → List Mfd → Option ℕ
free_slot i [] = none
free_slot i (f ∷ fs) = let rest = free_slot (suc i) fs in if f.is_open then rest else some i

unfoldable pub truncated : ℕ → ℕ → Mctx → Mctx
unfolding modify
truncated flags n m =
    if has_bit flags trunc
    then record m { nodes = modify n (λ d. record d { contents = [] }) m.nodes }
    else m

abbrev pub opened_fd : ℕ → ℕ → Mctx → Mfd
opened_fd flags n m = record {
  node = n;
  pos = if has_bit flags append then length (m.nodes n).contents else 0;
  flags = flags % 4;
  is_open = true;
}

abbrev pub take_slot : ℕ → ℕ → Mctx → Option ℕ → Result ℕ × Mctx
take_slot flags n m none = (err emfile, m)
take_slot flags n m (some fd) = (ok fd, record m { fds = set m.fds fd (opened_fd flags n m) })

abbrev pub open_node : ℕ → Result ℕ × Mctx → Result ℕ × Mctx
open_node flags (err e, m) = (err e, m)
open_node flags (ok n, m) =
    if is_dir (m.nodes n).mode
    then (err eisdir, m)
    else take_slot flags n (truncated flags n m) (free_slot 1 (drop 1 m.fds))

-- mem_open: the file is truncated before a slot is looked for
unfoldable pub mem_open : ℕ → Bytes → ℕ → ℕ → Mctx → Result ℕ × Mctx
unfolding find_or_create truncated free_slot
mem_open now path flags mode m = open_node flags (find_or_create now path flags mode m)

-- `fd <= 0 || fd >= 64 || !c->fds[fd].open`, 64 being the length of the array
unfoldable pub used_fd : Mctx → ℕ → Option Mfd
used_fd m zero = none
used_fd m (suc i) = get_elem? m.fds (suc i) >>= λ f. if f.is_open then some f else none

abbrev pub set_fd : ℕ → Mfd → Mctx → Mctx
set_fd fd f m = record m { fds = set m.fds fd f }

-- mem_close; the pointer it resets is not read while the slot is not in use
unfoldable pub mem_close : ℕ → Mctx → Result (Unit {0}) × Mctx
unfolding used_fd
mem_close fd m = elim (used_fd m fd) [
  | none ↦ (err ebadf, m)
  | some f ↦ (ok tt, set_fd fd (record f { is_open = false }) m)
]

-- mem_read
abbrev pub read_at : ℕ → ℕ → Mctx → Mfd → Result Bytes × Mctx
read_at fd n m f =
    let contents = (m.nodes f.node).contents in
    let room = length contents - f.pos in
    let k = if ltb n room then n else room in
    (ok (take k (drop f.pos contents)), set_fd fd (record f { pos = f.pos + k }) m)

unfoldable pub mem_read : ℕ → ℕ → Mctx → Result Bytes × Mctx
unfolding used_fd
mem_read fd n m = elim (used_fd m fd) [
  | none ↦ (err ebadf, m)
  | some f ↦ if f.flags % 4 == wronly then (err ebadf, m) else read_at fd n m f
]

-- `contents` made long enough for `n` bytes at `pos`, with zeros where there was nothing, and these bytes written
abbrev pub grown : Bytes → ℕ → Bytes
grown contents need = contents ++ replicate (need - length contents) 0

unfoldable pub overwrite : Bytes → ℕ → Bytes → Bytes
overwrite contents pos buf =
    let room = grown contents (pos + length buf) in
    take pos room ++ (buf ++ drop (pos + length buf) room)

abbrev pub put_bytes : ℕ → ℕ → Bytes → Mnode → Mnode
put_bytes now pos buf d = record d { contents = overwrite d.contents pos buf; mtime = now }

-- mem_write
abbrev pub write_at : ℕ → ℕ → Bytes → Mctx → Mfd → Result ℕ × Mctx
write_at now fd buf m f = (
  ok (length buf),
  set_fd fd (record f { pos = f.pos + length buf })
      (record m { nodes = modify f.node (put_bytes now f.pos buf) m.nodes }),
)

unfoldable pub mem_write : ℕ → ℕ → Bytes → Mctx → Result ℕ × Mctx
unfolding used_fd overwrite modify
mem_write now fd buf m = elim (used_fd m fd) [
  | none ↦ (err ebadf, m)
  | some f ↦ if f.flags % 4 == rdonly then (err ebadf, m) else write_at now fd buf m f
]

-- SEEK_SET, SEEK_CUR, SEEK_END, and any other number; an offset forward or back
pub data Whence : Type 0 where
  seek_set seek_cur seek_end seek_other : Whence

pub data Offset : Type 0 where
  forward back : ℕ → Offset

abbrev pub seek_base : Mctx → Mfd → Whence → Option ℕ
seek_base m f seek_set = some 0
seek_base m f seek_cur = some f.pos
seek_base m f seek_end = some (length (m.nodes f.node).contents)
seek_base m f seek_other = none

abbrev pub offset_from : ℕ → Offset → Option ℕ
offset_from base (forward n) = some (base + n)
offset_from base (back n) = if ltb base n then none else some (base - n)

-- mem_seek
unfoldable pub mem_seek : ℕ → Offset → Whence → Mctx → Result ℕ × Mctx
unfolding used_fd
mem_seek fd off whence m = elim (used_fd m fd) [
  | none ↦ (err ebadf, m)
  | some f ↦ elim (seek_base m f whence >>= λ base. offset_from base off) [
    | none ↦ (err einval, m)
    | some pos ↦ (ok pos, set_fd fd (record f { pos = pos }) m)
  ]
]

-- node_to_stat
abbrev pub node_to_stat : Mnode → Stat
node_to_stat n = record {
  mode = n.mode;
  size = length n.contents;
  mtime = n.mtime;
  uid = n.uid;
  gid = n.gid;
}

-- mem_fstat
unfoldable pub mem_fstat : ℕ → Mctx → Result Stat
unfolding used_fd
mem_fstat fd m = elim (used_fd m fd) [
  | none ↦ err ebadf
  | some f ↦ ok (node_to_stat (m.nodes f.node))
]
