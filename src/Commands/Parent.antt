-- ===== src/Commands/Parent.antt =====
-- `parent_is_dir` of src/commands.c changes nothing of the client and of the server.
use openps3ftp.Base.{refl, ◌∙◌, true, Option-cases, inl, inr, Bytes, is_nil}
use openps3ftp.Session.{Stat, Result, ok, err, State, Fs, Os}
use openps3ftp.Path.{path_parent, max_path}
use openps3ftp.Rooted.{r_stat}
use openps3ftp.Rooted.Frame.{Frame, if-Frame, guarded-Frame}
use openps3ftp.Commands.Common.{parent_is_dir, is_dir_result}

module _ {W : Type 0} (fs : Fs W) (os : Os W) where
  is_dir_result-Frame : (r : Result Stat × State W) → Frame r.1 (is_dir_result r).1
  is_dir_result-Frame (ok st, s) = refl
  is_dir_result-Frame (err e, s) = refl

  pub parent_is_dir-Frame : (path : Bytes) (s : State W) → Frame s (parent_is_dir fs os path s).1
  unfolding parent_is_dir
  parent_is_dir-Frame path s = elim (Option-cases (path_parent path max_path)) [
    | inl n ↦ rw (n, parent_is_dir) refl
    | inr (parent, e) ↦
        rw (e, parent_is_dir)
          (if-Frame (is_nil parent) s (true, s) (is_dir_result (r_stat fs os parent s)) refl
            (is_dir_result-Frame (r_stat fs os parent s)
              ∙ guarded-Frame os parent (fs.stat parent) s))
  ]
