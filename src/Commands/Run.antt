-- ===== src/Commands/Run.antt =====
-- src/commands.c: the handler behind each entry of the table.
use openps3ftp.Session.{State, Fs, Os}
use openps3ftp.Commands.Common.{Param}
use openps3ftp.Commands.Login.{
  cmd_user, cmd_pass, cmd_quit, cmd_noop, cmd_syst, cmd_feat, cmd_help, cmd_opts, cmd_acct,
  cmd_allo, cmd_type, cmd_mode, cmd_stru, cmd_stop,
}
use openps3ftp.Commands.Files.{
  cmd_pwd, cmd_cwd, cmd_cdup, cmd_mkd, cmd_rmd, cmd_dele, cmd_rnfr, cmd_rnto, cmd_cpfr, cmd_cpto,
}
use openps3ftp.Commands.Site.{cmd_site}
use openps3ftp.Commands.Stats.{cmd_size, cmd_mdtm, cmd_rest, cmd_stat, cmd_mlst, cmd_mfmt}
use openps3ftp.Commands.Channel.{cmd_pasv, cmd_port, cmd_epsv, cmd_eprt}
use openps3ftp.Commands.Tls.{cmd_auth, cmd_pbsz, cmd_prot}
use openps3ftp.Commands.Transfer.{
  cmd_abor, cmd_list, cmd_nlst, cmd_mlsd, cmd_stou, cmd_retr, cmd_stor, cmd_appe,
}
use openps3ftp.Commands.Registry.{
  Command, user, pass, quit, noop, syst, feat, help, opts, acct, allo, type, mode, stru, stop, pwd,
  cwd, cdup, mkd, rmd, dele, rnfr, rnto, cpfr, cpto, site, size, mdtm, rest, stat, pasv, port, epsv,
  eprt, auth, pbsz, prot, abor, list, nlst, mlsd, mlst, mfmt, stou, retr, stor, appe,
}

unfoldable pub run_command : {W : Type 0} → Fs W → Os W → Command → Param → State W → State W
run_command fs os user = cmd_user
run_command fs os pass = cmd_pass
run_command fs os quit = cmd_quit
run_command fs os noop = cmd_noop
run_command fs os syst = cmd_syst
run_command fs os feat = cmd_feat
run_command fs os help = cmd_help
run_command fs os opts = cmd_opts
run_command fs os acct = cmd_acct
run_command fs os allo = cmd_allo
run_command fs os type = cmd_type
run_command fs os mode = cmd_mode
run_command fs os stru = cmd_stru
run_command fs os stop = cmd_stop
run_command fs os pwd = cmd_pwd
run_command fs os cwd = cmd_cwd fs os
run_command fs os cdup = cmd_cdup fs os
run_command fs os mkd = cmd_mkd fs os
run_command fs os rmd = cmd_rmd fs os
run_command fs os dele = cmd_dele fs os
run_command fs os rnfr = cmd_rnfr fs os
run_command fs os rnto = cmd_rnto fs os
run_command fs os cpfr = cmd_cpfr fs os
run_command fs os cpto = cmd_cpto fs os
run_command fs os site = cmd_site fs os
run_command fs os size = cmd_size fs os
run_command fs os mdtm = cmd_mdtm fs os
run_command fs os rest = cmd_rest
run_command fs os stat = cmd_stat fs os
run_command fs os pasv = cmd_pasv os
run_command fs os port = cmd_port os
run_command fs os epsv = cmd_epsv os
run_command fs os eprt = cmd_eprt os
run_command fs os auth = cmd_auth os
run_command fs os pbsz = cmd_pbsz
run_command fs os prot = cmd_prot
run_command fs os abor = cmd_abor os
run_command fs os list = cmd_list fs os
run_command fs os nlst = cmd_nlst fs os
run_command fs os mlsd = cmd_mlsd fs os
run_command fs os mlst = cmd_mlst fs os
run_command fs os mfmt = cmd_mfmt fs os
run_command fs os stou = cmd_stou fs os
run_command fs os retr = cmd_retr fs os
run_command fs os stor = cmd_stor fs os
run_command fs os appe = cmd_appe fs os
