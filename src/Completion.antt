-- ===== src/Completion.antt =====
-- src/datachan.c: the end of a transfer on the reactor thread.
pub mod Ends
pub mod Lifecycle
use openps3ftp.Base.{
  ℕ, ◌==◌, Bool, true, false, not, ◌&&◌, Option, none, some, Bytes, codes, if◌then◌else◌, get_elem?,
}
use openps3ftp.Session.{
  Errno, enoent, enotdir, eacces, eisdir, einval, enametoolong, eloop, ecanceled, epipe, econnreset,
  etimedout, JobOp, copy, Job, Message, reply, State, Os, send, send_reply, on_client,
}
use openps3ftp.Commands.Common.{close_fd, close_pipe, r425, r451, r550}
use openps3ftp.Stream.{client_release}

abbrev pub r226 : Bytes
r226 = codes "Transfer complete."

abbrev pub r426 : Bytes
r426 = codes "Connection closed; transfer aborted."

abbrev pub is_copy : JobOp → Bool
is_copy copy = true
is_copy _ = false

-- without a data connection
unfoldable pub unconnected_reply : Option Errno → Message
unconnected_reply (some ecanceled) = reply 426 r426
unconnected_reply (some etimedout) = reply 425 r425
unconnected_reply (some eacces) = reply 425 r425
unconnected_reply _ = reply 451 r451

-- with one, or of a copy
unfoldable pub result_reply : JobOp → Option Errno → Message
result_reply op none = if is_copy op then reply 250 (codes "Copy successful.") else reply 226 r226
result_reply op (some ecanceled) = reply 426 r426
result_reply op (some epipe) = reply 426 r426
result_reply op (some econnreset) = reply 426 r426
result_reply op (some etimedout) = reply 426 r426
result_reply op (some enoent) = reply 550 r550
result_reply op (some eacces) = reply 550 r550
result_reply op (some enotdir) = reply 550 r550
result_reply op (some eisdir) = reply 550 r550
result_reply op (some einval) = reply 550 r550
result_reply op (some enametoolong) = reply 550 r550
result_reply op (some eloop) = reply 550 r550
result_reply op (some e) = reply 451 r451

unfoldable pub final_reply : Job → Message
unfolding unconnected_reply result_reply
final_reply j =
    if not j.conn_ok && not (is_copy j.op)
    then unconnected_reply j.result
    else result_reply j.op j.result

module _ {W : Type 0} where
  -- the second reply of an abort
  unfoldable pub end_abort : State W → State W
  end_abort s =
      if s.client.abor_pending
      then on_client (λ c. record c { abor_pending = false })
          (send_reply 226 (codes "Abort successful.") s)
      else s

  unfoldable pub finish_job : Job → State W → State W
  unfolding final_reply end_abort
  finish_job j s = end_abort (send (final_reply j) (on_client (λ c. record c { job = none }) s))

module _ {W : Type 0} (os : Os W) where
  abbrev pub close_job : Job → State W → State W
  close_job j s = close_pipe os j.cancel_pipe (close_fd os j.pasv_fd (close_fd os j.data_fd s))

  abbrev pub complete_job : Option Job → State W → State W
  complete_job none s = s
  complete_job (some j) s =
      client_release os (
        if j.generation == s.client.generation then finish_job j (close_job j s) else close_job j s)

  -- opftp_datachan_complete
  unfoldable pub datachan_complete : ℕ → State W → State W
  unfolding client_release finish_job
  datachan_complete i s = complete_job (get_elem? s.server.jobs i) s
