-- ===== src/Commands/Registry.antt =====
-- src/commands.c: the table of the commands.
use openps3ftp.Base.{Bool, List, [], ◌∷◌, if◌then◌else◌, Bytes, codes}
use openps3ftp.Dispatch.{Table, dispatch_register}

-- A handler as the table holds it: one constructor for each function.
pub data Command : Type 0 where
  user pass quit noop syst feat help opts acct allo type mode stru stop pwd cwd cdup mkd rmd :
      Command
  dele rnfr rnto cpfr cpto site size mdtm rest stat pasv port epsv eprt auth pbsz prot abor :
      Command
  list nlst mlsd mlst mfmt stou retr stor appe : Command

abbrev pub basic_commands : List (Bytes × Command)
basic_commands =
    (codes "USER", user)
    ∷ (codes "PASS", pass)
    ∷ (codes "QUIT", quit)
    ∷ (codes "NOOP", noop)
    ∷ (codes "SYST", syst)
    ∷ (codes "FEAT", feat)
    ∷ (codes "HELP", help)
    ∷ (codes "OPTS", opts)
    ∷ (codes "ACCT", acct)
    ∷ (codes "ALLO", allo)
    ∷ (codes "TYPE", type)
    ∷ (codes "MODE", mode)
    ∷ (codes "STRU", stru)
    ∷ []

abbrev pub stop_command : List (Bytes × Command)
stop_command = (codes "STOP", stop) ∷ []

abbrev pub file_commands : List (Bytes × Command)
file_commands =
    (codes "PWD", pwd)
    ∷ (codes "XPWD", pwd)
    ∷ (codes "CWD", cwd)
    ∷ (codes "XCWD", cwd)
    ∷ (codes "CDUP", cdup)
    ∷ (codes "XCUP", cdup)
    ∷ (codes "MKD", mkd)
    ∷ (codes "XMKD", mkd)
    ∷ (codes "RMD", rmd)
    ∷ (codes "XRMD", rmd)
    ∷ (codes "DELE", dele)
    ∷ (codes "RNFR", rnfr)
    ∷ (codes "RNTO", rnto)
    ∷ (codes "CPFR", cpfr)
    ∷ (codes "CPTO", cpto)
    ∷ (codes "SITE", site)
    ∷ (codes "SIZE", size)
    ∷ (codes "MDTM", mdtm)
    ∷ (codes "REST", rest)
    ∷ (codes "STAT", stat)
    ∷ (codes "PASV", pasv)
    ∷ (codes "PORT", port)
    ∷ (codes "EPSV", epsv)
    ∷ (codes "EPRT", eprt)
    ∷ (codes "AUTH", auth)
    ∷ (codes "PBSZ", pbsz)
    ∷ (codes "PROT", prot)
    ∷ (codes "ABOR", abor)
    ∷ (codes "LIST", list)
    ∷ (codes "NLST", nlst)
    ∷ (codes "MLSD", mlsd)
    ∷ (codes "MLST", mlst)
    ∷ (codes "MFMT", mfmt)
    ∷ (codes "STOU", stou)
    ∷ (codes "RETR", retr)
    ∷ (codes "STOR", stor)
    ∷ (codes "APPE", appe)
    ∷ []

unfoldable pub register_all : List (Bytes × Command) → Table Command → Table Command
unfolding dispatch_register
register_all [] t = t
register_all ((name, fn) ∷ cs) t = register_all cs (dispatch_register name fn t).0

-- opftp_commands_init
unfoldable pub commands_init : Bool → Table Command → Table Command
unfolding register_all
commands_init allow_stop t = register_all file_commands (
    if allow_stop
    then register_all stop_command (register_all basic_commands t)
    else register_all basic_commands t)
