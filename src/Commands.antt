-- ===== src/Commands.antt =====
-- src/commands.c: the handlers of the FTP commands, in the child modules, and their registration.
pub mod Common
pub mod Login
pub mod Files
pub mod Site
pub mod Stats
pub mod Address
pub mod Channel
pub mod Tls
pub mod Transfer
pub mod Registry
pub mod Run
pub mod Parent
pub mod Rename
pub mod Start
pub mod Jobs
pub mod Found
pub mod Peer
pub mod OneChannel
pub mod Cwd
pub mod Copy
pub mod Step
