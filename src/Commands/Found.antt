-- ===== src/Commands/Found.antt =====
-- opftp_commands_init of src/commands.c with the table of src/dispatch.c.
use openps3ftp.Base.{Bool}
use openps3ftp.Dispatch.{Table, dispatch_init}
use openps3ftp.Commands.Registry.{Command, commands_init}

abbrev pub command_table : Bool → Table Command
command_table allow_stop = commands_init allow_stop dispatch_init
