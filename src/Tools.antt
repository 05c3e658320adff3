-- ===== src/Tools.antt =====
-- The skills that come with the program, below skills/, over the file system and the processes that
-- they run.
pub mod Host
pub mod Filesystem
pub mod Shell
pub mod Install
pub mod Toolbox
pub mod Http
mod Tests
