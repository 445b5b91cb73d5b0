-- ===== src/Rooted/Frame.antt =====
-- The operations of src/fs_rooted.c change nothing of the client and of the server.
use openps3ftp.Base.{◌≡◌, refl, ◌∙◌, Bool, true, false, not, ◌&&◌, if◌then◌else◌, Bytes}
use openps3ftp.Session.{Errno, Result, ok, err, Client, Server, State, Fs, Os}
use openps3ftp.Rooted.{settle, check, guarded, r_rename, under_root, realpath_contained, escapes}

module _ {W : Type 0} where
  -- the client and the server, without the world and errno
  abbrev pub session : State W → Client × Server
  session s = (s.client, s.server)

  -- at most the world and errno differ
  abbrev pub Frame : State W → State W → Type 0
  Frame s t = session t ≡ session s

  pub settle-Frame {ℓ} : {A : Type ℓ} (r : Result A × W) (s : State W) → Frame s (settle r s).1
  settle-Frame (ok a, w) s = refl
  settle-Frame (err e, w) s = refl

  escapes-Frame : (os : Os W) (b : Bool × Errno) (s : State W) → Frame s (escapes os b s).1
  unfolding escapes
  escapes-Frame os (true, e) s = refl
  escapes-Frame os (false, e) s = refl

  -- a test between two outcomes of a state
  pub if-Frame {ℓ} :
      {A : Type ℓ} (b : Bool) (s : State W) (x y : A × State W)
      → Frame s x.1
      → Frame s y.1
      → Frame s (if b then x else y).1
  if-Frame true s x y h k = h
  if-Frame false s x y h k = k

  pub check-Frame : (os : Os W) (path : Bytes) (s : State W) → Frame s (check os path s).1
  unfolding check
  check-Frame os path s = if-Frame (not (under_root s.server.fs_root path)) s _ _ refl (
      if-Frame s.server.check_realpath s _ _
        (escapes-Frame os (realpath_contained os s.server.fs_root path s) s) refl)

  pub guarded-Frame :
      {A : Type 0} (os : Os W) (path : Bytes) (op : W → Result A × W) (s : State W)
      → Frame s (guarded os path op s).1
  unfolding guarded
  guarded-Frame os path op s =
      let (inside, s') = check os path s in
      if-Frame inside s _ _ (settle-Frame (op s'.world) s' ∙ check-Frame os path s)
        (check-Frame os path s)

  pub r_rename-Frame :
      (fs : Fs W) (os : Os W) (a b : Bytes) (s : State W) → Frame s (r_rename fs os a b s).1
  unfolding r_rename
  r_rename-Frame fs os a b s =
      let (inside_a, s') = check os a s in
      let (inside_b, s'') = check os b s' in
      if-Frame (inside_a && inside_b) s _ _
        (settle-Frame (fs.rename a b s''.world) s'' ∙ check-Frame os b s' ∙ check-Frame os a s) refl
