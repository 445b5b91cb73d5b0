-- ===== src/Run/Answer.antt =====
-- src/datachan.c: the replies to the results of a transfer.
use openps3ftp.Base.{ℕ, ◌≡◌, ◌≤◌, Bytes, codes, refl, Option, none, some, arith}
use openps3ftp.Session.{
  Errno, Message, reply, enoent, enotdir, eacces, eisdir, einval, enametoolong, eloop, epipe,
  econnreset, etimedout, Result, ok, err, ecanceled, JobOp, list, stor, appe, retr, copy,
}
use openps3ftp.Completion.{unconnected_reply, result_reply}

abbrev pub code_of : Result (Unit {0}) → Option Errno
code_of (ok u) = none
code_of (err e) = some e

-- The reply to a result: 226, or 250 for a copy, to 0; to an error a negative one, and 426 to ECANCELED.
abbrev pub IsAnswer : JobOp → Option Errno → Message → Type 0
IsAnswer copy none m = m ≡ reply 250 (codes "Copy successful.")
IsAnswer list none m = m ≡ reply 226 (codes "Transfer complete.")
IsAnswer retr none m = m ≡ reply 226 (codes "Transfer complete.")
IsAnswer stor none m = m ≡ reply 226 (codes "Transfer complete.")
IsAnswer appe none m = m ≡ reply 226 (codes "Transfer complete.")
IsAnswer op (some e) m =
    (code : ℕ) × (msg : Bytes) × (m ≡ reply code msg) × (400 ≤ code) × (e ≡ ecanceled → code ≡ 426)

pub result_reply-IsAnswer : (op : JobOp) (o : Option Errno) → IsAnswer op o (result_reply op o)
unfolding result_reply
result_reply-IsAnswer copy none = refl
result_reply-IsAnswer list none = refl
result_reply-IsAnswer retr none = refl
result_reply-IsAnswer stor none = refl
result_reply-IsAnswer appe none = refl
result_reply-IsAnswer op (some ecanceled) = (426, _, refl, omega arith, λ _. refl)
result_reply-IsAnswer op (some epipe) = (426, _, refl, omega arith, λ _. refl)
result_reply-IsAnswer op (some econnreset) = (426, _, refl, omega arith, λ _. refl)
result_reply-IsAnswer op (some etimedout) = (426, _, refl, omega arith, λ _. refl)
result_reply-IsAnswer op (some enoent) = (550, _, refl, omega arith, λ e. absurd cc)
result_reply-IsAnswer op (some eacces) = (550, _, refl, omega arith, λ e. absurd cc)
result_reply-IsAnswer op (some enotdir) = (550, _, refl, omega arith, λ e. absurd cc)
result_reply-IsAnswer op (some eisdir) = (550, _, refl, omega arith, λ e. absurd cc)
result_reply-IsAnswer op (some einval) = (550, _, refl, omega arith, λ e. absurd cc)
result_reply-IsAnswer op (some enametoolong) = (550, _, refl, omega arith, λ e. absurd cc)
result_reply-IsAnswer op (some eloop) = (550, _, refl, omega arith, λ e. absurd cc)
result_reply-IsAnswer op (some e) = (451, _, refl, omega arith, λ h. absurd cc)

pub unconnected-IsAnswer :
    (op : JobOp) (e : Errno) → IsAnswer op (some e) (unconnected_reply (some e))
unfolding unconnected_reply
unconnected-IsAnswer op ecanceled = (426, _, refl, omega arith, λ _. refl)
unconnected-IsAnswer op etimedout = (425, _, refl, omega arith, λ e. absurd cc)
unconnected-IsAnswer op eacces = (425, _, refl, omega arith, λ e. absurd cc)
unconnected-IsAnswer op e = (451, _, refl, omega arith, λ h. absurd cc)
