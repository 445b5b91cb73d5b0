-- ===== src/Samples/Memory.antt =====
-- The theorems on the file system in memory at sample values: a file "/a", and a connection that sends "hi".
use openps3ftp.Base.{
  List, ◌∷◌, ◌≡◌, refl, false, some, [], ◌++◌, Bytes, codes, arith, length, take-eq_of_le,
}
use openps3ftp.Session.{ok, stor}
use openps3ftp.Worker.{Channel, Run, ready, accepted, Arrived, bytes}
use openps3ftp.Worker.Moves.{transfer_stor, transfer_retr}
use openps3ftp.Memory.{Mctx, fs_mem_create}
use openps3ftp.Memory.Descriptors.{mem_open}
use openps3ftp.Memory.Lookup.{IsFile}
use openps3ftp.Memory.Serve.{memory_files, over_network, Carries}
use openps3ftp.Memory.Upload.{Delivers}
use openps3ftp.Memory.Round.{stor_retr}
use openps3ftp.Memory.Invariant.{IsTree}
use openps3ftp.Memory.Runs.{
  MemOp, open_op, write_op, mkdir_op, rename_op, unlink_op, rmdir_op, mem_runs, mem_runs-IsTree,
}

-- what the peer has been sent, what has arrived, and what is still to arrive
abbrev Network : Type 0
Network = Bytes × Bytes × Bytes

abbrev out : Network → Bytes
out n = n.0

abbrev arrived : Network → Bytes
arrived n = n.1

abbrev next_piece : Network → Arrived × Network
next_piece (o, a, p) = (bytes p, (o, a ++ p, []))

abbrev peer : Channel Network
peer = record {
  cancelled = λ n. (false, n);
  poll = λ b n. (ready, n);
  send = λ b n. (accepted (length b), (n.0 ++ b, n.1, n.2));
  recv = λ room n. next_piece n;
  tls_write = λ b n. (accepted (length b), (n.0 ++ b, n.1, n.2));
  tls_read = λ room n. next_piece n;
}

peer-Delivers : Delivers arrived peer
peer-Delivers = record {
  cancelled = λ n. refl;
  poll = λ b n. refl;
  recv = λ room n. refl;
  tls_read = λ room n. refl;
}

peer-Carries : Carries out peer
peer-Carries = record {
  cancelled = λ n. refl;
  poll = λ b n. refl;
  send = λ b n. (omega arith, rw (take-eq_of_le (length b) b (omega arith)) refl);
  tls_write = λ b n. (omega arith, rw (take-eq_of_le (length b) b (omega arith)) refl);
}

-- the memory with one new file
abbrev disk : Mctx
unfolding mem_open fs_mem_create
disk = (mem_open 5 (codes "/a") 66 420 (fs_mem_create 0)).1

disk-IsFile : IsFile (codes "/a") 1 disk
unfolding disk IsFile
disk-IsFile = (refl, refl)

abbrev world : Mctx × Network
world = (disk, ([], [], codes "hi"))

-- the upload, and the download after it
abbrev upload : Run (Mctx × Network)
upload = transfer_stor (memory_files 7) (over_network peer) 4 4 false stor (codes "/a") 0 world

abbrev download : Run (Mctx × Network)
download = transfer_retr (memory_files 8) (over_network peer) 4 4 false (codes "/a") 0 upload.2

stored : upload.0 ≡ some (ok tt)
unfolding disk transfer_stor memory_files over_network
stored = refl

served : download.0 ≡ some (ok tt)
unfolding disk transfer_stor transfer_retr memory_files over_network
served = refl

stor_retr_example :
    (text : Bytes) × (arrived upload.2.1 ≡ [] ++ text)
    × (out download.2.1 ≡ out upload.2.1 ++ text)
    × (upload.1 ≡ length text)
    × (download.1 ≡ length text)
stor_retr_example =
    stor_retr out arrived 7 8 peer peer peer-Delivers peer-Carries 4 4 4 4 false false (codes "/a")
      1 world disk-IsFile stored served

-- two directories, a file in the inner one, an attempt to move the outer one into the inner one, and the inner one moved
abbrev requests : List MemOp
requests =
    mkdir_op 1 (codes "/a") 0
    ∷ mkdir_op 2 (codes "/a/b") 0
    ∷ open_op 3 (codes "/a/b/f") 66 420
    ∷ write_op 4 1 (codes "hi")
    ∷ rename_op (codes "/a") (codes "/a/b/c")
    ∷ rename_op (codes "/a/b") (codes "/c")
    ∷ unlink_op (codes "/c/f")
    ∷ rmdir_op (codes "/a")
    ∷ []

mem_runs-IsTree_example : IsTree (mem_runs requests (fs_mem_create 0))
mem_runs-IsTree_example = mem_runs-IsTree 0 requests
