-- ===== src/Fs.antt =====
-- pmeunier-project/fs.c: the FSX492 file system behind its FUSE operations.
pub mod Layout
pub mod Monad
pub mod Sound
pub mod Alloc
pub mod Dir
pub mod Path
pub mod Translate
pub mod Directory
pub mod Inode
pub mod Create
pub mod Remove
pub mod Attr
pub mod Rename
pub mod Read
pub mod Write
pub mod Sample
mod AttrTests
mod DataTests
mod Tests
