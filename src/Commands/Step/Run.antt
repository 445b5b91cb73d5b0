-- ===== src/Commands/Step/Run.antt =====
-- The command handlers together, and the handling of one control line: src/commands.c, src/server.c.
use openps3ftp.Session.{State, Fs, Os}
use openps3ftp.Commands.Common.{Param}
use openps3ftp.Commands.Run.{run_command}
use openps3ftp.Commands.Registry.{
  Command, user, pass, quit, noop, syst, feat, help, opts, acct, allo, type, mode, stru, stop, pwd,
  cwd, cdup, mkd, rmd, dele, rnfr, rnto, cpfr, cpto, site, size, mdtm, rest, stat, pasv, port, epsv,
  eprt, auth, pbsz, prot, abor, list, nlst, mlsd, mlst, mfmt, stou, retr, stor, appe,
}
use openps3ftp.Commands.Step.Login.{
  cmd_user-Step, cmd_pass-Step, cmd_quit-Step, cmd_noop-Step, cmd_syst-Step, cmd_feat-Step,
  cmd_help-Step, cmd_opts-Step, cmd_acct-Step, cmd_allo-Step, cmd_type-Step, cmd_mode-Step,
  cmd_stru-Step, cmd_stop-Step, cmd_auth-Step, cmd_pbsz-Step, cmd_prot-Step,
}
use openps3ftp.Commands.Step.Files.{
  cmd_pwd-Step, cmd_cwd-Step, cmd_cdup-Step, cmd_mkd-Step, cmd_rmd-Step, cmd_dele-Step,
  cmd_rnfr-Step, cmd_rnto-Step, cmd_cpfr-Step, cmd_cpto-Step,
}
use openps3ftp.Commands.Step.Stats.{
  cmd_site-Step, cmd_size-Step, cmd_mdtm-Step, cmd_rest-Step, cmd_stat-Step, cmd_mlst-Step,
  cmd_mfmt-Step,
}
use openps3ftp.Commands.Step.Channel.{cmd_pasv-Step, cmd_port-Step, cmd_epsv-Step, cmd_eprt-Step}
use openps3ftp.Commands.Step.Transfer.{
  cmd_abor-Step, cmd_list-Step, cmd_nlst-Step, cmd_mlsd-Step, cmd_stou-Step, cmd_retr-Step,
  cmd_stor-Step, cmd_appe-Step,
}
use openps3ftp.Commands.Step.{Step}

module _ {W : Type 0} (fs : Fs W) (os : Os W) where
  -- Every command, whatever its argument, the file system and the operating system do, keeps the server's
  -- configuration and the identity of the connection, logs nobody out, does not lengthen the read buffer,
  -- leaves an active transfer the active one, takes a reference exactly when it starts a transfer,
  -- leaves at most one of a listener and a target, keeps the working directory canonical below a valid root, and only appends to what was sent.
  pub run_command-Step : (c : Command) (p : Param) (s : State W) → Step s (run_command fs os c p s)
  unfolding run_command
  run_command-Step user p s = cmd_user-Step p s
  run_command-Step pass p s = cmd_pass-Step p s
  run_command-Step quit p s = cmd_quit-Step p s
  run_command-Step noop p s = cmd_noop-Step p s
  run_command-Step syst p s = cmd_syst-Step p s
  run_command-Step feat p s = cmd_feat-Step p s
  run_command-Step help p s = cmd_help-Step p s
  run_command-Step opts p s = cmd_opts-Step p s
  run_command-Step acct p s = cmd_acct-Step p s
  run_command-Step allo p s = cmd_allo-Step p s
  run_command-Step type p s = cmd_type-Step p s
  run_command-Step mode p s = cmd_mode-Step p s
  run_command-Step stru p s = cmd_stru-Step p s
  run_command-Step stop p s = cmd_stop-Step p s
  run_command-Step pwd p s = cmd_pwd-Step fs os p s
  run_command-Step cwd p s = cmd_cwd-Step fs os p s
  run_command-Step cdup p s = cmd_cdup-Step fs os p s
  run_command-Step mkd p s = cmd_mkd-Step fs os p s
  run_command-Step rmd p s = cmd_rmd-Step fs os p s
  run_command-Step dele p s = cmd_dele-Step fs os p s
  run_command-Step rnfr p s = cmd_rnfr-Step fs os p s
  run_command-Step rnto p s = cmd_rnto-Step fs os p s
  run_command-Step cpfr p s = cmd_cpfr-Step fs os p s
  run_command-Step cpto p s = cmd_cpto-Step fs os p s
  run_command-Step site p s = cmd_site-Step fs os p s
  run_command-Step size p s = cmd_size-Step fs os p s
  run_command-Step mdtm p s = cmd_mdtm-Step fs os p s
  run_command-Step rest p s = cmd_rest-Step p s
  run_command-Step stat p s = cmd_stat-Step fs os p s
  run_command-Step pasv p s = cmd_pasv-Step os p s
  run_command-Step port p s = cmd_port-Step os p s
  run_command-Step epsv p s = cmd_epsv-Step os p s
  run_command-Step eprt p s = cmd_eprt-Step os p s
  run_command-Step auth p s = cmd_auth-Step os p s
  run_command-Step pbsz p s = cmd_pbsz-Step p s
  run_command-Step prot p s = cmd_prot-Step p s
  run_command-Step abor p s = cmd_abor-Step os p s
  run_command-Step list p s = cmd_list-Step fs os p s
  run_command-Step nlst p s = cmd_nlst-Step fs os p s
  run_command-Step mlsd p s = cmd_mlsd-Step fs os p s
  run_command-Step mlst p s = cmd_mlst-Step fs os p s
  run_command-Step mfmt p s = cmd_mfmt-Step fs os p s
  run_command-Step stou p s = cmd_stou-Step fs os p s
  run_command-Step retr p s = cmd_retr-Step fs os p s
  run_command-Step stor p s = cmd_stor-Step fs os p s
  run_command-Step appe p s = cmd_appe-Step fs os p s
