-- ===== src/Commands/Transfer.antt =====
-- src/commands.c: the commands that start or abort a transfer, with the address checks of
-- src/datachan.c that come before one.
use openps3ftp.Base.{
  ℕ, zero, suc, ◌+◌, ◌%◌, ◌^◌, Bool, true, false, not, ◌&&◌, ◌||◌, Option, none, some, [], ◌∷◌,
  ◌++◌, ◌==◌, get_elem?, if◌then◌else◌, Bytes, codes, first_byte, drop, snprintf, skip_spaces,
  str_eq,
}
use openps3ftp.Session.{
  enoent, Result, ok, err, Addr, inet, inet6, is_v4mapped, Stat, Job, JobOp, list, stor, appe, retr,
  Client, State, Fs, Os, send_reply, on_client, on_server,
}
use openps3ftp.Path.{max_path}
use openps3ftp.Time.{padded}
use openps3ftp.Rooted.{r_stat}
use openps3ftp.Listing.{is_reg, base_name}
use openps3ftp.Commands.Common.{
  Param, r425, r450, r501, r550, reply_fs_error, resolve_arg, parent_is_dir, job_new, job_free,
  job_dispatch, on_job, is_some, is_none,
}

-- A v4-mapped IPv6 address and the IPv4 address in it.
abbrev pub mapped_eq : Bytes → Bytes → Bool
mapped_eq a6 a4 = is_v4mapped a6 && str_eq (drop 12 a6) a4

unfoldable pub addr_eq : Addr → Addr → Bool
unfolding str_eq is_v4mapped
addr_eq (inet a p) (inet b q) = str_eq a b
addr_eq (inet6 a p) (inet6 b q) = str_eq a b
addr_eq (inet6 a p) (inet b q) = mapped_eq a b
addr_eq (inet a p) (inet6 b q) = mapped_eq b a
addr_eq _ _ = false

unfoldable pub default_150 : Option Bytes → Bytes
default_150 none = codes "Accepted data connection."
default_150 (some msg) = msg

-- what the job takes over from the client
abbrev pub fill_job : Client → Bytes → Bool → Bool → Job → Job
fill_job c path nlst mlsd j = record j {
  nlst = nlst;
  mlsd = mlsd;
  rest = c.rest;
  need_tls = c.tls_prot;
  path = snprintf max_path path;
  pasv_fd = c.pasv_fd;
  data_peer = c.data_peer;
  have_data_peer = c.have_data_peer;
  ctl_peer = c.peer;
}

module _ {W : Type 0} where
  -- `true` is a return of 0
  unfoldable pub precheck : State W → Bool
  unfolding addr_eq
  precheck s =
      not s.client.have_data_peer
      || s.server.allow_foreign_port
      || addr_eq s.client.peer s.client.data_peer

module _ {W : Type 0} (os : Os W) where
  -- The flag is set, and a byte goes to the job's pipe.
  unfoldable pub wake_job : Option Job → State W → State W
  wake_job none s = s
  wake_job (some j) s = elim j.cancel_pipe [
    | none ↦ s
    | some (a, b) ↦ record s { world = os.write_pipe b s.world }
  ]

  unfoldable pub cancel_job : ℕ → State W → State W
  unfolding wake_job
  cancel_job i s =
      wake_job (get_elem? s.server.jobs i) (on_job i (λ j. record j { cancelled = true }) s)

  unfoldable pub cmd_abor : Param → State W → State W
  unfolding cancel_job
  cmd_abor param s = elim s.client.job [
    | none ↦ send_reply 226 (codes "Abort successful.") s
    | some i ↦ on_client (λ c. record c { abor_pending = true }) (cancel_job i s)
  ]

  abbrev pub hand_over : State W → State W
  hand_over s = on_client (λ c. record c { pasv_fd = none; have_data_peer = false }) s

  abbrev pub transfer_sent : ℕ → Option Bytes → Bool × State W → State W
  transfer_sent i reply150 (true, s) =
      send_reply 150 (default_150 reply150) (on_client (λ c. record c { job = some i; rest = 0 }) s)
  transfer_sent i reply150 (false, s) = send_reply 425 r425 (job_free os i s)

  abbrev pub with_job : Bytes → Bool → Bool → Option Bytes → Option ℕ × State W → State W
  with_job path nlst mlsd reply150 (none, s) = send_reply 425 r425 s
  with_job path nlst mlsd reply150 (some i, s) =
      transfer_sent i reply150
        (job_dispatch i (hand_over (on_job i (fill_job s.client path nlst mlsd) s)))

  unfoldable pub start_transfer : JobOp → Bytes → Bool → Bool → Option Bytes → State W → State W
  unfolding precheck default_150 job_new job_free job_dispatch snprintf
  start_transfer op path nlst mlsd reply150 s =
      if is_some s.client.job
      then send_reply 450 r450 s
      else if not (precheck s)
      then send_reply 425 r425 s
      else if is_none s.client.pasv_fd && not s.client.have_data_peer
      then send_reply 425 r425 s
      else with_job path nlst mlsd reply150 (job_new os op s)

-- what follows the first space, with the spaces; `none` is a NULL of `strchr`
unfoldable pub from_space : Bytes → Param
from_space [] = none
from_space (c ∷ s) = let rest = from_space s in if c == b' ' then some (c ∷ s) else rest

-- "-flags" in front of the path of a listing are skipped
unfoldable pub listing_arg : Param → Param
unfolding from_space skip_spaces
listing_arg none = none
listing_arg (some s) =
    if first_byte s == b'-'
    then elim (from_space s) [ none ↦ none | some t ↦ some (skip_spaces t) ]
    else some s

module _ {W : Type 0} (fs : Fs W) (os : Os W) where
  unfoldable pub list_found : Bytes → Bool → Bool → Result Stat × State W → State W
  list_found path nlst mlsd (ok st, s) = start_transfer os list path nlst mlsd none s
  list_found path nlst mlsd (err e, s) = reply_fs_error s

  unfoldable pub start_listing : Param → Bool → Bool → State W → State W
  unfolding listing_arg resolve_arg list_found
  start_listing param nlst mlsd s = elim (resolve_arg (listing_arg param) s) [
    | none ↦ send_reply 501 r501 s
    | some path ↦ list_found path nlst mlsd (r_stat fs os path s)
  ]

  unfoldable pub cmd_list : Param → State W → State W
  unfolding start_listing
  cmd_list param s = start_listing param false false s

  unfoldable pub cmd_nlst : Param → State W → State W
  unfolding start_listing
  cmd_nlst param s = start_listing param true false s

  unfoldable pub cmd_mlsd : Param → State W → State W
  unfolding start_listing
  cmd_mlsd param s = start_listing param false true s

  unfoldable pub retr_found : Bytes → Result Stat × State W → State W
  retr_found path (ok st, s) =
      if is_reg st.mode then start_transfer os retr path false false none s else reply_fs_error s
  retr_found path (err e, s) = reply_fs_error s

  unfoldable pub cmd_retr : Param → State W → State W
  unfolding resolve_arg retr_found
  cmd_retr param s = elim (resolve_arg param s) [
    | none ↦ send_reply 501 r501 s
    | some path ↦ retr_found path (r_stat fs os path s)
  ]

  unfoldable pub store_to : JobOp → Bytes → Bool × State W → State W
  store_to op path (true, s) = start_transfer os op path false false none s
  store_to op path (false, s) = reply_fs_error s

  unfoldable pub cmd_stor : Param → State W → State W
  unfolding resolve_arg parent_is_dir store_to
  cmd_stor param s = elim (resolve_arg param s) [
    | none ↦ send_reply 501 r501 s
    | some path ↦ store_to stor path (parent_is_dir fs os path s)
  ]

  unfoldable pub cmd_appe : Param → State W → State W
  unfolding resolve_arg parent_is_dir store_to
  cmd_appe param s = elim (resolve_arg param s) [
    | none ↦ send_reply 501 r501 s
    | some path ↦ store_to appe path (parent_is_dir fs os path s)
  ]

  -- One round of STOU: a name, and whether `stat` finds it missing.
  abbrev pub is_missing : Result Stat × State W → Bool × State W
  is_missing (ok st, s) = (false, s)
  is_missing (err enoent, s) = (true, s)
  is_missing (err e, s) = (false, s)

  abbrev pub stou_name : State W → Bytes
  stou_name s = codes "ftp" ++ padded 6 s.server.stou_seq

  abbrev pub next_seq : State W → State W
  next_seq s = on_server (λ v. record v { stou_seq = (v.stou_seq + 1) % 2 ^ 32 }) s

  unfoldable pub stou_last : Bytes → Bool × State W → Option Bytes × State W
  stou_last name (true, s) = (some name, s)
  stou_last name (false, s) = (none, send_reply 450 (codes "No unique file name available.") s)

  unfoldable pub stou_next :
      (State W → Option Bytes × State W) → Bytes → Bool × State W → Option Bytes × State W
  stou_next again name (true, s) = (some name, s)
  stou_next again name (false, s) = again s

  -- The rounds left after this one; the chosen name, or none with the reply that refuses.
  unfoldable pub stou_from : ℕ → State W → Option Bytes × State W
  unfolding resolve_arg padded stou_last stou_next
  stou_from zero s = elim (resolve_arg (some (stou_name s)) (next_seq s)) [
    | none ↦ (none, send_reply 550 r550 (next_seq s))
    | some name ↦ stou_last name (is_missing (r_stat fs os name (next_seq s)))
  ]
  stou_from (suc more) s = elim (resolve_arg (some (stou_name s)) (next_seq s)) [
    | none ↦ (none, send_reply 550 r550 (next_seq s))
    | some name ↦ stou_next (stou_from more) name (is_missing (r_stat fs os name (next_seq s)))
  ]

  unfoldable pub store_unique : Option Bytes × State W → State W
  unfolding base_name snprintf
  store_unique (none, s) = s
  store_unique (some name, s) =
      start_transfer os stor name false false
        (some (snprintf 64 (codes "FILE: " ++ base_name name))) s

  abbrev pub seed_seq : State W → State W
  seed_seq s =
      if s.server.stou_seq == 0
      then on_server (λ v. record v { stou_seq = os.time s.world % 2 ^ 32 % 1000000 }) s
      else s

  unfoldable pub cmd_stou : Param → State W → State W
  unfolding stou_from store_unique
  cmd_stou param s = store_unique (stou_from 9 (seed_seq s))
