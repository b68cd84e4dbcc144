-- ===== src/LFuse.antt =====
-- fuse/examples/l-fuse: a file system whose calls are sent by Rx to a server, which answers them from
-- below its own /afs.
pub mod Requests
pub mod Host
pub mod Server
pub mod Remote
pub mod Client
pub mod Bulk
pub mod Start
pub mod Link
