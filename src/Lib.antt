-- ===== src/Lib.antt =====
-- OpenPS3FTP: the core of the FTP server library of src/, in C.
--
-- A server runs a reactor thread that reads command lines from its clients and calls one handler per
-- command; transfers are jobs that the handlers put in a queue for worker threads. This library models
-- what the reactor thread does with a line: the look-up and the login gate (src/server.c, src/dispatch.c),
-- all handlers (src/commands.c), the paths they resolve (src/resolve.c), the wrapper that confines the
-- file system to a root (src/fs_rooted.c), and the lines they print (src/listing.c); how the line gets there
-- (src/client.c, src/server.c); and a transfer: its checks, its queue, its data connection and its end
-- (src/datachan.c), and the bytes that a worker moves (src/transfer.c); and the file system in memory that
-- serves the tests (src/fs_mem.c). Where the source differs for the PS3,
-- what is compiled elsewhere is modelled.
--
-- State. `State W` of Session is a server, one client, the world `W` behind the file system and the system
-- calls, and errno. `Fs W`, `Os W`, `Net W` (of Stream), `Files W`, `Channel W` and `Dirs W` (of Worker),
-- `Dial W` (of Connect) and `Tls W` (of Run) are those operations as functions on the world: they are parameters, and nothing is
-- assumed of them but what a theorem names. A handler is a function from a parameter and a state to a
-- state; what it sends is appended to `sent` of the client. C strings are lists of bytes without the NUL,
-- and a `snprintf` into a buffer of n bytes keeps the first n - 1. Numbers are ℕ; conversions that wrap or
-- saturate are written out, and a time counts seconds from the year 0.
--
-- Files.
--   Base: shared tests, lists and strings. Path: src/resolve.c; under it Tokens, Join and Walk describe
--     splitting, rebuilding and the walk, Resolve, Exact and Roots what `opftp_path_resolve` returns.
--   Session: struct opftp_client, opftp_server and opftp_transfer_job (src/opftp.h), and opftp_fs_t
--     (include/openps3ftp/openps3ftp.h). Scan and Time: strtol, sscanf, timegm and gmtime as the
--     handlers use them. Listing: src/listing.c. Utf8: src/utf8.c, with WellFormed. Dispatch:
--     src/dispatch.c, with Find.
--   Rooted: src/fs_rooted.c, with Contain and Frame.
--   Commands: src/commands.c. Common has the helpers and the jobs, Login, Files, Site, Stats, Address,
--     Channel, Tls and Transfer the handlers, Registry the table and Run the handler behind each entry;
--     Parent, Jobs, Start, Rename, Copy, Cwd, OneChannel and Peer prove what they do, and
--     Step, with a child for each group of handlers, what all of them keep.
--   Reactor: `process_line` and `prelogin_command` of src/server.c; Gate and Enter prove the login gate,
--     and Sound the invariant of a session.
--   Stream: src/client.c, the read buffer and its lines (Lines). Reactor/Events: `handle_client_events`
--     and `client_disconnect` of src/server.c, with Sound. Completion: `opftp_datachan_complete` of
--     src/datachan.c, with Ends and Lifecycle, which follow a transfer from its start over an abort or a
--     disconnection to its end.
--   Pool: the ring of jobs of src/datachan.c; Valid, Refine, Runs and Link show it to be the queue of
--     the session.
--   Worker: src/transfer.c, with RETR, STOR and APPE in Moves and the copy of a file in Copy; Laws says
--     what is relied on, Send, Retr, Stor and Copied show what arrives, Ends that RETR ends. Directory has
--     LIST and Walk the copy of a tree; Listed, Confined and Keeps prove what they do.
--   Run: `opftp_transfer_run` of src/transfer.c, over Connect and Worker; Prepared and Answer say when a
--     transfer starts and what a reply tells, and Reply joins both.
--   Memory: src/fs_mem.c, with its Descriptors and its Tree; Lookup, Serve, Store, Upload and Round show it
--     to be a file system as the transfers want one. Acyclic, Linked, Relink, Invariant, Created and Changed have
--     the invariant of its nodes, and Runs the operations in any order.
--   Connect: `opftp_datachan_connect_job` of src/datachan.c, with Trust.
--   Samples: sample values, and the theorems at them.
--
-- Bounds. The validator of src/utf8.c and the search for an existing ancestor in src/fs_rooted.c recur on
-- fuel, the length of the text, which each round shortens; STOU makes its ten rounds. The loop over the
-- buffered lines has the number of unread bytes as fuel, which each line lessens; the loop over the reads
-- of a socket goes on as long as the peer sends, so its number of rounds is an argument, and what is shown
-- holds for every number. The loops of a worker are given a number of rounds in the same way, as a peer
-- may stall them; Worker/Ends says how many are enough when it does not. Everything else recurs on its list. The loop of a rename over
-- the parents of a directory has as many rounds as the path of that directory has components. The
-- component stacks keep their caps of 512 and 64, and buffers theirs of 1024 and 2048.
--
-- Not modelled. The threads and the poll loop, the start and stop of the server, and TLS sessions (src/tls.c, over a vendored mbedtls); memory does
-- not run out, and setsockopt has no effect. legacy, app, plugin and feat are other programs.
pub mod Base
pub mod Path
pub mod Session
pub mod Stream
pub mod Memory
pub mod Pool
pub mod Worker
pub mod Connect
pub mod Completion
pub mod Listing
pub mod Commands
pub mod Reactor
pub mod Run
pub mod Scan
pub mod Time
pub mod Rooted
pub mod Dispatch
pub mod Utf8
mod Samples
