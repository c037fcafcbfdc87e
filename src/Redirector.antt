-- ===== src/Redirector.antt =====
-- The network redirector of fnshare: DOS asks it, by interrupt 2Fh, for the file operations on the
-- drive that it serves (fnshare/redir.c, with fnshare/dosfunc.c and the structures of
-- fnshare/dosdata.h).
pub mod Names
pub mod State
pub mod Search
pub mod Directories
pub mod OpenFiles
pub mod Bulk
pub mod Dispatch
pub mod Sample
mod Tests
