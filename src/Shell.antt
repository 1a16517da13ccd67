-- ===== src/Shell.antt =====
-- pmeunier-project/main.c: the command line of the file system. Its paths, its commands and its loop.
pub mod Mode
pub mod Paths
pub mod Commands
pub mod Copy
pub mod Loop
pub mod Main
mod Tests
