-- ===== src/Samples/Witnesses.antt =====
-- The theorems at the sample values.
use openps3ftp.Base.{
  skip_spaces, Bytes, ℕ, ◌≡◌, ◌≢◌, ◌↔◌, ◌⊎◌, refl, true, false, none, some, [], ◌∷◌, map, arith,
  codes, All, str_eq, get_last_or, to_upper,
}
use openps3ftp.Session.{inet, inet6, JobOp, send_reply}
use openps3ftp.Path.{path_resolve, ends_with_slash}
use openps3ftp.Path.Tokens.{tokens, scan}
use openps3ftp.Path.Join.{top, place}
use openps3ftp.Path.Walk.{IsClean}
use openps3ftp.Path.Resolve.{IsResolved, path_resolve-IsResolved}
use openps3ftp.Path.Roots.{destination, path_resolve-destination, path_resolve_dot}
use openps3ftp.Dispatch.{dispatch_init, dispatch_find, dispatch_register}
use openps3ftp.Dispatch.Find.{found_after, find-dispatch_register}
use openps3ftp.Commands.Common.{r503}
use openps3ftp.Commands.Registry.{noop}
use openps3ftp.Commands.Found.{command_table}
use openps3ftp.Commands.Files.{cmd_rnto}
use openps3ftp.Commands.Rename.{cmd_rnto_once}
use openps3ftp.Commands.Transfer.{start_transfer, addr_eq}
use openps3ftp.Commands.Start.{IsStarted, IsRefused, start_transfer-outcome}
use openps3ftp.Commands.Channel.{cmd_eprt}
use openps3ftp.Commands.Peer.{as_ipv6, addr_eq_iff}
use openps3ftp.Reactor.{take_name, process_line}
use openps3ftp.Reactor.Gate.{process_line-same_fs}
use openps3ftp.Reactor.Enter.{IsAuthorised, process_line_iff}
use openps3ftp.Rooted.Frame.{session}
use openps3ftp.Commands.Common.{resolve_arg}
use openps3ftp.Commands.Files.{cmd_cwd, cmd_cpto}
use openps3ftp.Commands.Cwd.{IsCanonical, cmd_cwd-IsCanonical}
use openps3ftp.Commands.Copy.{IsCopy, cmd_cpto-outcome}
use openps3ftp.Commands.Channel.{cmd_pasv, cmd_port, cmd_epsv}
use openps3ftp.Commands.OneChannel.{IsOneChannel, channel_commands-IsOneChannel}
use openps3ftp.Utf8.{utf8_valid}
use openps3ftp.Utf8.WellFormed.{IsUtf8, utf8_valid_iff}
use openps3ftp.Reactor.Sound.{IsSound, process_line-IsSound, process_line-active}
use openps3ftp.Samples.{sample_fs, broken_fs, sample_os, sample, copying, transferring}

letter-IsClean : (c : ℕ) → c ≢ b'/' → c ≢ b'.' → IsClean (c ∷ [])
letter-IsClean c slash dot =
    ((λ e. absurd cc, (slash, tt)), (λ e. absurd (dot (ground arith))), λ e. absurd cc)

pub d-IsClean : All IsClean (codes "d" ∷ [])
d-IsClean = (letter-IsClean b'd' (λ e. absurd cc) (λ e. absurd cc), tt)

path_resolve-IsResolved_example :
    IsResolved top 1024 (codes "/d/x") × (false ≡ ends_with_slash (codes "../d/./x"))
unfolding path_resolve tokens scan
path_resolve-IsResolved_example =
    path_resolve-IsResolved top (codes "/d") (codes "../d/./x") 1024 d-IsClean refl

process_line-same_fs_example :
    process_line sample_fs sample_os (command_table false) (codes "LIST /d") sample
    ≡ process_line broken_fs sample_os (command_table false) (codes "LIST /d") sample
process_line-same_fs_example =
    process_line-same_fs sample_os sample_fs broken_fs false (codes "LIST /d") sample refl

process_line_iff_example :
    ((process_line sample_fs sample_os
        (command_table false)
        (codes "pass secret")
        sample).client.logged_in
      ≡ true)
    ↔ ((codes "PASS" ≡ codes "PASS") × IsAuthorised (some (codes "secret")) sample)
unfolding take_name skip_spaces
process_line_iff_example =
    process_line_iff sample_fs sample_os false (codes "pass secret") sample refl

start_transfer-outcome_example :
    let t = start_transfer sample_os JobOp.retr (codes "/d/a") false false none sample in
    IsStarted JobOp.retr (codes "/d/a") false false none sample t ⊎ IsRefused sample t
start_transfer-outcome_example =
    start_transfer-outcome sample_os JobOp.retr (codes "/d/a") false false none sample

path_resolve-destination_example :
    path_resolve (codes "/") (codes "/d") (codes "../e/") 1024
    ≡ some (place top (destination (codes "/d") (codes "../e/")), ends_with_slash (codes "../e/"))
unfolding tokens scan str_eq
path_resolve-destination_example =
    path_resolve-destination (codes "/d") (codes "../e/") 1024 d-IsClean (omega arith) (omega arith)
      (omega arith) (omega arith) (omega arith)

rv_is_open : get_last_or b's' (codes "rv") ≢ b'/'
rv_is_open e = absurd cc

a_b-IsClean : All IsClean (codes "a" ∷ codes "b" ∷ [])
a_b-IsClean = (
  letter-IsClean b'a' (λ e. absurd cc) (λ e. absurd cc),
  (letter-IsClean b'b' (λ e. absurd cc) (λ e. absurd cc), tt),
)

path_resolve_dot_example :
    (path_resolve (codes "/srv") (codes "/a/b") (codes ".") 1024 ≡ some (codes "/srv/b", false))
    × (codes "/srv/b" ≢ codes "/srv/a/b")
unfolding tokens scan
path_resolve_dot_example =
    path_resolve_dot b's' (codes "rv") rv_is_open (codes "a" ∷ codes "b" ∷ []) 1024 (omega arith)
      (omega arith) (omega arith) (omega arith) (omega arith) a_b-IsClean (omega arith)
      (omega arith) (omega arith)

find-dispatch_register_example :
    ((dispatch_register (codes "noop") noop dispatch_init).1 ≡ none
      → dispatch_find (codes "NOOP") (dispatch_register (codes "noop") noop dispatch_init).0
        ≡ found_after (map to_upper (codes "noop")) noop (codes "NOOP") dispatch_init)
    × ((dispatch_register (codes "noop") noop dispatch_init).1 ≢ none
        → (dispatch_register (codes "noop") noop dispatch_init).0 ≡ dispatch_init)
find-dispatch_register_example =
    find-dispatch_register (codes "noop") noop (codes "NOOP") dispatch_init

cmd_rnto_once_example :
    cmd_rnto sample_fs sample_os
      (some (codes "y"))
      (cmd_rnto sample_fs sample_os (some (codes "x")) sample)
    ≡ send_reply 503 r503 (cmd_rnto sample_fs sample_os (some (codes "x")) sample)
cmd_rnto_once_example =
    cmd_rnto_once sample_fs sample_os (some (codes "x")) (some (codes "y")) sample

addr_eq_iff_example :
    let a = inet (10 ∷ 0 ∷ 0 ∷ 2 ∷ []) 21 in
    let b = inet6 (0 ∷ 0 ∷ 0 ∷ 0 ∷ 0 ∷ 0 ∷ 0 ∷ 0 ∷ 0 ∷ 0 ∷ 255 ∷ 255 ∷ 10 ∷ 0 ∷ 0 ∷ 2 ∷ []) 80 in
    (addr_eq a b ≡ true) ↔ ((as_ipv6 a ≡ as_ipv6 b) × (as_ipv6 a ≢ none))
addr_eq_iff_example =
    addr_eq_iff (inet (10 ∷ 0 ∷ 0 ∷ 2 ∷ []) 21)
      (inet6 (0 ∷ 0 ∷ 0 ∷ 0 ∷ 0 ∷ 0 ∷ 0 ∷ 0 ∷ 0 ∷ 0 ∷ 255 ∷ 255 ∷ 10 ∷ 0 ∷ 0 ∷ 2 ∷ []) 80)

cmd_cwd-IsCanonical_example :
    IsCanonical (cmd_cwd sample_fs sample_os (some (codes "./../d/")) sample)
unfolding tokens scan
cmd_cwd-IsCanonical_example =
    cmd_cwd-IsCanonical sample_fs sample_os (some (codes "./../d/")) sample top d-IsClean

channel_commands-IsOneChannel_example :
    IsOneChannel (cmd_pasv sample_os none sample)
    × IsOneChannel (cmd_epsv sample_os none sample)
    × IsOneChannel (cmd_port sample_os none sample)
    × IsOneChannel (cmd_eprt sample_os none sample)
channel_commands-IsOneChannel_example = channel_commands-IsOneChannel sample_os none sample refl

cmd_cpto-outcome_example :
    let t = cmd_cpto sample_fs sample_os (some (codes "b")) copying in
    (t.server.jobs ≡ [])
    ⊎ ((true ≡ true)
        × ((path : Bytes) × (resolve_arg (some (codes "b")) copying ≡ some path)
            × IsCopy path (session copying) (session t)))
cmd_cpto-outcome_example = cmd_cpto-outcome sample_fs sample_os (some (codes "b")) copying

-- U+20AC and a truncated copy of it
utf8_valid_iff_example :
    (utf8_valid (226 ∷ 130 ∷ 172 ∷ 226 ∷ 130 ∷ []) ≡ true)
    ↔ IsUtf8 (226 ∷ 130 ∷ 172 ∷ 226 ∷ 130 ∷ [])
utf8_valid_iff_example = utf8_valid_iff (226 ∷ 130 ∷ 172 ∷ 226 ∷ 130 ∷ [])

sample-IsSound : IsSound 1 sample
unfolding tokens scan
sample-IsSound = record { rooted = top; canonical = d-IsClean; one_channel = refl; counted = refl }

process_line-IsSound_example :
    IsSound 1 (process_line sample_fs sample_os (command_table false) (codes "RETR x") sample)
process_line-IsSound_example =
    process_line-IsSound sample_fs sample_os (command_table false) 1 (codes "RETR x") sample
      sample-IsSound

process_line-active_example :
    let u = process_line sample_fs sample_os (command_table false) (codes "ABOR") transferring in
    (u.client.job ≡ some 0) × (u.client.refs ≡ 2) × (u.client.logged_in ≡ true)
process_line-active_example =
    process_line-active sample_fs sample_os (command_table false) (codes "ABOR") transferring 0 refl
      refl
