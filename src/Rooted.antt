-- ===== src/Rooted.antt =====
-- src/fs_rooted.c: the file system as the handlers see it. Each operation on a path checks the path
-- first, and then forwards to the base file system.
pub mod Contain
pub mod Frame
use openps3ftp.Base.{
  ℕ, zero, suc, Bool, true, false, not, ◌&&◌, ◌||◌, Option, none, some, ◌==◌, if◌then◌else◌, Bytes,
  first_byte, is_nil, starts_with, snprintf, length, drop,
}
use openps3ftp.Path.{max_path, path_parent, strip_slashes}
use openps3ftp.Session.{Errno, enoent, eacces, Result, ok, err, Stat, State, Fs, Os}

unfoldable pub under_root : Bytes → Bytes → Bool
under_root root path =
    if not (starts_with root path)
    then false
    else if length root == 1
    then first_byte path == b'/'
    else is_nil (drop (length root) path) || first_byte (drop (length root) path) == b'/'

-- opftp_fs_rooted: the root that the wrapper of `root` checks against, or `none` if it refuses
unfoldable pub fs_rooted : Bytes → Option Bytes
unfolding snprintf strip_slashes
fs_rooted root =
    if not (first_byte root == b'/') then none else some (strip_slashes (snprintf max_path root))

abbrev is_enoent : Errno → Bool
is_enoent enoent = true
is_enoent _ = false

-- 0 or -1 of an operation, with the world after it: a failure sets errno.
abbrev pub settle {ℓ} : {W : Type 0} {A : Type ℓ} → Result A × W → State W → Result A × State W
settle (ok a, w) s = (ok a, record s { world = w })
settle (err e, w) s = (err e, record s { world = w; errno = e })

module _ {W : Type 0} (os : Os W) where
  -- The loop over the ancestors of a missing path. The answer, and the errno that is left; each round
  -- shortens `probe`, so its length is fuel enough.
  contained_from : ℕ → Bytes → Bytes → Bytes → W → Bool × Errno
  contained_from zero root path probe w = (false, enoent)
  contained_from (suc fuel) root path probe w = elim (path_parent probe max_path) [
    | none ↦ (false, enoent)
    | some parent ↦ elim (is_nil parent) [
      | true ↦ (under_root root path, enoent)
      | false ↦ elim (os.realpath parent w) [
        | ok resolved ↦ (under_root root resolved, enoent)
        | err e ↦ elim (is_enoent e) [
          | true ↦ contained_from fuel root path parent w
          | false ↦ (false, e)
        ]
      ]
    ]
  ]

  pub realpath_contained : Bytes → Bytes → State W → Bool × Errno
  unfolding contained_from snprintf
  realpath_contained root path s = elim (os.realpath path s.world) [
    | ok resolved ↦ (under_root root resolved, s.errno)
    | err e ↦
        if is_enoent e
        then contained_from max_path root path (snprintf max_path path) s.world
        else (false, e)
  ]

  -- `check`, and the state with the errno that it leaves
  unfoldable pub escapes : Bool × Errno → State W → Bool × State W
  escapes (true, e) s = (true, record s { errno = e })
  escapes (false, e) s = (false, record s { errno = if is_enoent e then enoent else eacces })

  unfoldable pub check : Bytes → State W → Bool × State W
  unfolding under_root realpath_contained escapes
  check path s =
      if not (under_root s.server.fs_root path)
      then (false, record s { errno = eacces })
      else if s.server.check_realpath
      then escapes (realpath_contained s.server.fs_root path s) s
      else (true, s)

  -- an operation behind the check
  unfoldable pub guarded : {A : Type 0} → Bytes → (W → Result A × W) → State W → Result A × State W
  guarded path op s =
      let (inside, s') = check path s in
      if inside then settle (op s'.world) s' else (err s'.errno, s')

module _ {W : Type 0} (fs : Fs W) (os : Os W) where
  abbrev pub r_stat : Bytes → State W → Result Stat × State W
  r_stat path = guarded os path (fs.stat path)

  abbrev pub r_opendir : Bytes → State W → Result ℕ × State W
  r_opendir path = guarded os path (fs.opendir path)

  abbrev pub r_mkdir : Bytes → ℕ → State W → Result (Unit {0}) × State W
  r_mkdir path mode = guarded os path (fs.mkdir path mode)

  abbrev pub r_rmdir : Bytes → State W → Result (Unit {0}) × State W
  r_rmdir path = guarded os path (fs.rmdir path)

  abbrev pub r_unlink : Bytes → State W → Result (Unit {0}) × State W
  r_unlink path = guarded os path (fs.unlink path)

  abbrev pub r_chmod : Bytes → ℕ → State W → Result (Unit {0}) × State W
  r_chmod path mode = guarded os path (fs.chmod path mode)

  abbrev pub r_utimes : Bytes → ℕ → State W → Result (Unit {0}) × State W
  r_utimes path mtime = guarded os path (fs.utimes path mtime)

  -- A check changes nothing but errno.
  unfoldable pub r_rename : Bytes → Bytes → State W → Result (Unit {0}) × State W
  r_rename a b s =
      let (inside_a, s') = check os a s in
      let (inside_b, s'') = check os b s' in
      if inside_a && inside_b
      then settle (fs.rename a b s''.world) s''
      else (err eacces, record s { errno = eacces })
