-- ===== src/Samples/Copy.antt =====
-- The theorems on the copy of a file at sample values.
use openps3ftp.Base.{◌≡◌, refl, [], ◌++◌, codes, arith, length, take-eq_of_le}
use openps3ftp.Session.{enoent, eio, ok, err, Fs}
use openps3ftp.Worker.{Files}
use openps3ftp.Worker.Retr.{IsSent}
use openps3ftp.Worker.Copy.{copy_chunk, copy_loop, copy_end, copy_file}
use openps3ftp.Worker.Copied.{IsCopying, copy_loop-IsSent, copy_file-removes}
use openps3ftp.Samples.Worker.{World, read_one, read_one-Yields, channel, left, written, start}

-- nothing is there, and anything can be removed
abbrev pub empty_fs : Fs World
empty_fs = record {
  stat = λ path w. (err enoent, w);
  opendir = λ path w. (err eio, w);
  readdir_all = λ dir w. ([], w);
  closedir = λ dir w. w;
  mkdir = λ path mode w. (err eio, w);
  rmdir = λ path w. (err eio, w);
  unlink = λ path w. (ok tt, ([], w.1));
  rename = λ a b w. (err eio, w);
  chmod = λ path mode w. (err eio, w);
  utimes = λ path t w. (err eio, w);
}

abbrev copier : Files World
copier = record {
  open_file = λ path flags mode w. (ok 3, w);
  close = λ fd w. w;
  read = λ fd n w. read_one w;
  write = λ fd b w. (ok (length b), (w.0 ++ b, w.1));
  seek = λ fd n w. (ok tt, w);
  fstat = λ fd w. (err eio, w);
}

copier-IsCopying : IsCopying written left empty_fs copier channel 3 4
copier-IsCopying = record {
  cancelled = λ w. refl;
  reads = λ w. read_one-Yields 3 w;
  writes = λ b w. (omega arith, rw (take-eq_of_le (length b) b (omega arith)) refl);
}

copy_loop-IsSent_example :
    IsSent
      (written 4)
      (codes "hello")
      0
      ([], codes "hello")
      (copy_loop empty_fs copier channel 3 2 3 4 0 ([], codes "hello"))
copy_loop-IsSent_example =
    copy_loop-IsSent written left empty_fs copier channel 3 4 copier-IsCopying 3 2 0
      ([], codes "hello")

-- a source that cannot be read
abbrev unreadable : Files World
unreadable = record copier { read = λ fd n w. (err eio, w) }

copy_file-removes_example :
    (v : World) × ((copy_file empty_fs unreadable channel 2 2 (codes "/a") (codes "/b") 0 start).2
      ≡ (empty_fs.unlink (codes "/b") v).1)
unfolding copy_file copy_loop copy_chunk copy_end empty_fs
copy_file-removes_example =
    copy_file-removes empty_fs unreadable channel 2 2 (codes "/a") (codes "/b") 0 start start start
      start 3 3 enoent refl refl refl refl
