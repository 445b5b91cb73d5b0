-- ===== src/Samples/Control.antt =====
-- The theorems on the control stream and on the end of a transfer at the sample values.
use openps3ftp.Base.{
  ℕ, ◌<◌, ◌≡◌, ◌⊎◌, refl, none, some, [], ◌∷◌, ◌++◌, true, false, arith, codes, All,
}
use openps3ftp.Session.{ecanceled, Job, reply}
use openps3ftp.Path.Join.{top}
use openps3ftp.Path.Tokens.{tokens, scan}
use openps3ftp.Commands.Common.{on_job}
use openps3ftp.Commands.Transfer.{cmd_abor}
use openps3ftp.Commands.Found.{command_table}
use openps3ftp.Stream.{line_size, client_getline, get_lines}
use openps3ftp.Stream.Lines.{IsText, print_lines, get_lines-append, get_lines-print}
use openps3ftp.Reactor.Sound.{IsSound}
use openps3ftp.Reactor.Events.{is_interrupted, line_loop, serve_events}
use openps3ftp.Reactor.Events.Sound.{IsBounded, IsServed, line_loop_ends, serve_events-IsServed}
use openps3ftp.Completion.{final_reply, datachan_complete, r426}
use openps3ftp.Completion.Ends.{abort_replies}
use openps3ftp.Completion.Lifecycle.{datachan_complete-IsSound, abort_sequence}
use openps3ftp.Samples.{sample_fs, sample_os, sample_net, busy, sample_job, with_line}
use openps3ftp.Samples.Witnesses.{d-IsClean}

letter-IsText : (c : ℕ) → 32 < c → IsText c
letter-IsText c h = ((λ e. omega arith), λ e. omega arith)

get_lines-append_example :
    let a = codes "NO" in
    let b = codes "OP" ++ b'\n' ∷ codes "QU" in
    let first = get_lines 3 1024 a in
    let second = get_lines 8 1024 (first.1 ++ b) in
    get_lines 8 1024 (a ++ b) ≡ (first.0 ++ second.0, second.1)
get_lines-append_example =
    get_lines-append 1024 3 8 8 (codes "NO") (codes "OP" ++ b'\n' ∷ codes "QU") (omega arith)
      (omega arith) (omega arith)

get_lines-print_example :
    get_lines 20 1024 (print_lines (codes "NOOP" ∷ codes "QUIT" ∷ []) (codes "AB"))
    ≡ (codes "NOOP" ∷ codes "QUIT" ∷ [], codes "AB")
get_lines-print_example =
    get_lines-print 20 1024 (codes "NOOP" ∷ codes "QUIT" ∷ []) (codes "AB")
      (
        (four b'N' b'O' b'O' b'P' (omega arith), omega arith),
        ((four b'Q' b'U' b'I' b'T' (omega arith), omega arith), tt),
      )
      (letter-IsText b'A' (omega arith), (letter-IsText b'B' (omega arith), tt)) (omega arith)
  where
    four :
        (a b c d : ℕ) → (32 < a) × (32 < b) × (32 < c) × (32 < d) → All IsText (a ∷ b ∷ c ∷ d ∷ [])
    four a b c d h = (
      letter-IsText a h.0,
      (letter-IsText b h.1, (letter-IsText c h.2, (letter-IsText d h.3, tt))),
    )

line_loop_ends_example :
    let u = line_loop sample_fs sample_os sample_net (command_table false) 7 with_line in
    (client_getline line_size u.client.rbuf ≡ none) ⊎ (is_interrupted u ≡ true)
line_loop_ends_example =
    line_loop_ends sample_fs sample_os sample_net (command_table false) 7 with_line (omega arith)

sample_net-IsBounded : IsBounded sample_net
sample_net-IsBounded = record { recv = λ fd room w. tt; tls_read = λ room w. tt }

with_line-IsServed : IsServed 1 with_line
unfolding tokens scan
with_line-IsServed = record {
  sound = record { rooted = top; canonical = d-IsClean; one_channel = refl; counted = refl };
  within = omega arith;
}

serve_events-IsServed_example :
    IsServed 1
      (serve_events sample_fs sample_os sample_net
        (command_table false)
        3
        (record { urgent = true; readable = true; hung_up = false })
        with_line).1
serve_events-IsServed_example =
    serve_events-IsServed sample_fs sample_os sample_net (command_table false) 1 3
      (record { urgent = true; readable = true; hung_up = false }) with_line sample_net-IsBounded
      with_line-IsServed

busy-IsSound : IsSound 1 busy
unfolding tokens scan
busy-IsSound = record { rooted = top; canonical = d-IsClean; one_channel = refl; counted = refl }

datachan_complete-IsSound_example :
    let u = datachan_complete sample_os 0 busy in
    IsSound 1 u
    × (u.client.job ≡ none)
    × (u.client.abor_pending ≡ false)
    × (u.client.sent
        ≡ busy.client.sent ++ final_reply sample_job ∷ abort_replies busy.client.abor_pending)
datachan_complete-IsSound_example =
    datachan_complete-IsSound sample_os 1 0 sample_job busy busy-IsSound refl refl refl

-- the worker gives up
give_up : Job → Job
give_up j = record j { result = some ecanceled; posted = true }

abort_sequence_example :
    let u = datachan_complete sample_os 0 (on_job 0 give_up (cmd_abor sample_os none busy)) in
    (u.client.sent
      ≡ busy.client.sent ++ reply 426 r426 ∷ reply 226 (codes "Abort successful.") ∷ [])
    × (u.client.job ≡ none)
    × (u.client.abor_pending ≡ false)
unfolding give_up
abort_sequence_example =
    abort_sequence sample_os none 0 sample_job give_up busy refl refl refl (λ j. refl) (λ j. refl)
