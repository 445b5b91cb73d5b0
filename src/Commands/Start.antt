-- ===== src/Commands/Start.antt =====
-- start_transfer of src/commands.c: how a transfer begins.
use openps3ftp.Base.{
  ℕ, ◌<◌, ◌≡◌, ◌≢◌, snprintf, take, refl, sym, ◌∙◌, ap, Bool, true, false, not, ◌&&◌, Option, none,
  some, [], ◌∷◌, ◌++◌, arith, leb, length, get_elem?, subst, Bytes, Bool-cases, Option-cases, inl,
  inr, ◌⊎◌,
}
use openps3ftp.Session.{JobOp, Job, reply, State, Os, send_reply}
use openps3ftp.Commands.Common.{
  r425, r450, is_none, job_new, job_dispatch, new_job, blank_job, on_job,
}
use openps3ftp.Commands.Transfer.{
  addr_eq, start_transfer, precheck, fill_job, default_150, hand_over, with_job,
}
use openps3ftp.Commands.Jobs.{update_nth-last, get_elem?-last, job_free-session}

module _ {W : Type 0} where
  -- A transfer that has begun: no other was active, the target is not a foreign address, there is a
  -- channel, and the queue had room; its job, which has taken over the channel, is the last of the queue.
  pub record IsStarted (op : JobOp) (path : Bytes) (nlst mlsd : Bool) (msg : Option Bytes)
      (s t : State W) : Type 0 where
    pub idle : s.client.job ≡ none
    pub allowed :
        (s.client.have_data_peer ≡ false)
        ⊎ ((s.server.allow_foreign_port ≡ true) ⊎ (addr_eq s.client.peer s.client.data_peer ≡ true))
    pub channel : (s.client.pasv_fd ≢ none) ⊎ (s.client.have_data_peer ≡ true)
    pub room : length s.server.queue < s.server.queue_cap
    pub active : t.client.job ≡ some (length s.server.jobs)
    pub queued : t.server.queue ≡ s.server.queue ++ length s.server.jobs ∷ []
    pub given_up : (t.client.pasv_fd ≡ none) × (t.client.have_data_peer ≡ false)
    pub restarted : t.client.rest ≡ 0
    pub told : t.client.sent ≡ s.client.sent ++ reply 150 (default_150 msg) ∷ []
    pub made : Job
    pub jobs : t.server.jobs ≡ s.server.jobs ++ made ∷ []
    pub asked : (made.op ≡ op) × (made.nlst ≡ nlst) × (made.mlsd ≡ mlsd)
    pub path_kept : made.path ≡ take 1023 path
    pub offset : made.rest ≡ s.client.rest
    pub listener : made.pasv_fd ≡ s.client.pasv_fd
    pub target :
        (made.have_data_peer ≡ s.client.have_data_peer)
        × (made.data_peer ≡ s.client.data_peer)
        × (made.ctl_peer ≡ s.client.peer)
    pub protected : made.need_tls ≡ s.client.tls_prot
    pub unconnected : (made.conn_ok ≡ false) × (made.data_fd ≡ none)
    pub owner : made.generation ≡ s.client.generation

  -- A transfer that has not: the client's active transfer and the queue stay, its references are
  -- balanced, and one reply refuses.
  pub record IsRefused (s t : State W) : Type 0 where
    pub same_job : t.client.job ≡ s.client.job
    pub same_queue : t.server.queue ≡ s.server.queue
    pub same_rest : t.client.rest ≡ s.client.rest
    pub same_refs : t.client.refs ≡ s.client.refs
    pub told :
        (code : ℕ) × (msg : Bytes) × (t.client.sent ≡ s.client.sent ++ reply code msg ∷ [])
        × ((code ≡ 425) ⊎ (code ≡ 450))

precheck-allows :
    {W : Type 0} (s : State W)
    → precheck s ≡ true
    → (s.client.have_data_peer ≡ false)
      ⊎ ((s.server.allow_foreign_port ≡ true) ⊎ (addr_eq s.client.peer s.client.data_peer ≡ true))
unfolding precheck
precheck-allows s h = elim (Bool-cases s.client.have_data_peer) [
  | inr no_target ↦ inl no_target
  | inl target ↦ elim (Bool-cases s.server.allow_foreign_port) [
    | inl any ↦ inr (inl any)
    | inr own ↦ inr (inr (rw (target, own) at h))
  ]
]

has_channel :
    (fd : Option ℕ) (target : Bool)
    → (is_none fd && not target) ≡ false
    → (fd ≢ none) ⊎ (target ≡ true)
has_channel (some n) target h = inl (λ e. cc)
has_channel none true h = inr refl
has_channel none false h = absurd cc

module _ {W : Type 0} (os : Os W) where
  with_job-outcome :
      (op : JobOp) (path : Bytes) (nlst mlsd : Bool) (msg : Option Bytes) (s : State W)
      (r : Option (ℕ × ℕ) × W)
      → s.client.job ≡ none
      → precheck s ≡ true
      → (is_none s.client.pasv_fd && not s.client.have_data_peer) ≡ false
      → let t = with_job os path nlst mlsd msg (new_job op r s) in
        IsStarted op path nlst mlsd msg s t ⊎ IsRefused s t
  unfolding job_dispatch snprintf
  with_job-outcome op path nlst mlsd msg s (none, w) idle allowed channel = inr (record {
    same_job = refl;
    same_queue = refl;
    same_rest = refl;
    same_refs = refl;
    told = (425, r425, refl, inl refl);
  })
  with_job-outcome op path nlst mlsd msg s (some pipe, w) idle allowed channel =
      elim (Bool-cases (leb s.server.queue_cap (length s.server.queue))) [
        | inr free ↦ rw free (
            inl (record {
              idle = idle;
              allowed = precheck-allows s allowed;
              channel = has_channel s.client.pasv_fd s.client.have_data_peer channel;
              room = ground arith;
              active = refl;
              queued = refl;
              given_up = (refl, refl);
              restarted = refl;
              told = refl;
              made = fill_job s.client path nlst mlsd (blank_job s op pipe);
              jobs =
                  update_nth-last s.server.jobs (fill_job s.client path nlst mlsd)
                    (blank_job s op pipe);
              asked = (refl, refl, refl);
              path_kept = refl;
              offset = refl;
              listener = refl;
              target = (refl, refl, refl);
              protected = refl;
              unconnected = (refl, refl);
              owner = refl;
            }))
        | inl full ↦
            let s' = hand_over os (
              on_job (length s.server.jobs) (fill_job s.client path nlst mlsd)
                (new_job op (some pipe, w) s).1) in
            let filled = fill_job s.client path nlst mlsd (blank_job s op pipe) in
            let there : get_elem? s'.server.jobs (length s.server.jobs) ≡ some filled =
              rw
                (update_nth-last s.server.jobs (fill_job s.client path nlst mlsd)
                  (blank_job s op pipe))
                (get_elem?-last s.server.jobs filled) in
            let freed = job_free-session os (length s.server.jobs) filled s' there in
            rw full (
              inr (record {
                same_job = ap (λ p. p.0.job) freed;
                same_queue = ap (λ p. p.1.queue) freed;
                same_rest = ap (λ p. p.0.rest) freed;
                same_refs = ap (λ p. p.0.refs) freed ∙ omega arith;
                told = (425, r425, ap (λ p. p.0.sent ++ reply 425 r425 ∷ []) freed, inl refl);
              }))
      ]

  refused :
      (code : ℕ) (msg : Bytes) (s : State W)
      → (code ≡ 425) ⊎ (code ≡ 450)
      → IsRefused s (send_reply code msg s)
  refused code msg s known = record {
    same_job = refl;
    same_queue = refl;
    same_rest = refl;
    same_refs = refl;
    told = (code, msg, refl, known);
  }

  -- Whatever is asked for, a transfer either begins or is refused. It begins only when no other is active,
  -- the target of PORT or EPRT is the client's own address (or the server allows others), there is a
  -- channel, and the queue has room; then its job, last in the queue, has the operation, the path cut to 1023 bytes,
  -- the flags, the offset of REST, the listener, the target and the protection that the client had; the client holds
  -- offset and channel no more, and 150 is the one reply. A refusal is one reply, 425 or 450,
  -- and leaves the active transfer, the queue, the offset and the reference count as they were.
  pub start_transfer-outcome :
      (op : JobOp) (path : Bytes) (nlst mlsd : Bool) (msg : Option Bytes) (s : State W)
      → let t = start_transfer os op path nlst mlsd msg s in
        IsStarted op path nlst mlsd msg s t ⊎ IsRefused s t
  unfolding start_transfer job_new
  start_transfer-outcome op path nlst mlsd msg s =
      let begins : State W → Type 0 = λ t. IsStarted op path nlst mlsd msg s t ⊎ IsRefused s t in
      elim (Option-cases s.client.job) [
        | inr (i, busy) ↦ subst begins (sym (rw busy refl)) (inr (refused 450 r450 s (inr refl)))
        | inl idle ↦ elim (Bool-cases (precheck s)) [
          | inr foreign ↦
              subst begins (sym (rw (idle, foreign) refl)) (inr (refused 425 r425 s (inl refl)))
          | inl allowed ↦
              elim (Bool-cases (is_none s.client.pasv_fd && not s.client.have_data_peer)) [
                | inl missing ↦
                    subst begins (sym (rw (idle, allowed, missing) refl))
                      (inr (refused 425 r425 s (inl refl)))
                | inr channel ↦ subst begins (sym (rw (idle, allowed, channel) refl)) (
                    with_job-outcome op path nlst mlsd msg s (os.pipe s.world) idle allowed channel)
              ]
        ]
      ]
