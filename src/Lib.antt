-- ===== src/Lib.antt =====
-- CS492: course work on operating systems. The development is about pmeunier-project, the FSX492
-- file system behind FUSE with its command line, and about two character devices,
-- rmiller-pa5/driver/scull.c, a FIFO, and pa4/driver/scull.c, a number set by ioctl, and about the
-- schedule of pa3/edf.c and the system call of pa2/my_syscall/my_syscall.c.
-- Parts and files:
-- * Device models pmeunier-project/image.c and blkdev.h. `Device` is struct image_dev with the
--   file behind its descriptor: `content b` holds the bytes of block b. Every operation of
--   blkdev_ops is a function with the operation's name. The system's open, fstat, malloc, pread
--   and pwrite are the environment: their results are fields of `Host` and of `Device`.
-- * Fs/Layout models pmeunier-project/fsx492.h: the structures, and the bytes that a compiler for
--   a little-endian machine gives them, bit-fields from the lowest bit up.
-- * Fs/Monad holds the static variables of pmeunier-project/fs.c as one record, `State`, and the
--   ways one of its functions ends as `Outcome`: a result, a negated error number, or the end of
--   the process (`exit(1)`, a failed assert of the device, an access outside an array or to a null
--   pointer). Fs/Sound says in which states the theorems are about: the maps cover what they
--   describe and the metadata lies inside the device.
-- * Fs/Alloc is get_free_blk to update_inode, num_free_blk and flush_metadata; Fs/Dir the loops
--   over one directory block; Fs/Path is parse with strtok; Fs/Translate is lookup, translate and
--   translate_1; Fs/Create is set_attributes_and_update, fs_mknod and fs_mkdir; Fs/Remove is
--   fs_truncate with its helpers, fs_unlink, fs_releasedir and fs_rmdir; Fs/Rename is fs_rename;
--   Fs/Read is fs_read with its helpers and Fs/Write is fs_write with its helpers; Fs/Attr is
--   fs_init, cpy_stat, fs_getattr, fs_opendir, fs_readdir, fs_chmod, fs_utime, fs_open, fs_release
--   and fs_statfs. The child modules of each hold its theorems. Fs/Directory relates lookups to
--   the entries of a directory's block, Fs/Inode says what storing an inode leaves, Fs/Attr/Mount
--   what fs_init finds on a device that holds the metadata in memory, Fs/Attr/Written the device
--   behind update_inode, Fs/Attr/Store the operations that store one inode. Fs/Sample is a small
--   image for the tests.
-- * The operations call each other as in the source: an operation translates its path, which looks
--   each name up in a block read from the device; it then takes or returns bits of the maps,
--   writes inodes and maps back through the device, and writes the directory block.
-- * Fifo models rmiller-pa5/driver/scull.c: `Fifo` is its static variables with the buffer's
--   bytes, pointers being offsets from circleBuffer; scull_init_module, scull_read, scull_write
--   and scull_ioctl are the functions of those names. Fifo/Memory is about stores and loads,
--   Fifo/Ring about slots, Fifo/Queue about single calls, Fifo/Refinement about runs of calls.
--   What the kernel does to a call (a sleep interrupted, the lock not had, bytes not copied) is a
--   `Call`. A call that waits on a semaphore is a result of its own. Fifo/Calls is the same two
--   functions as a step relation for calls that run at the same time: `Pc` is where a call stands,
--   `Advance` and `Move` its steps on what the calls share, `System` the device with its users'
--   calls. Each assignment to start and end, each store of a length and each copy is a step, so
--   that a call which begins without the lock sees start and end as they are then. A copy outside
--   the buffer reads and writes the memory that is there.
-- * Quantum models pa4/driver/scull.c: `Driver` is scull_quantum and the list from head on, and
--   `execute` is the switch of scull_ioctl. The numbers of the commands are the kernel's macros,
--   so what they are is a parameter, `Ioctl`; `Caller` is what the kernel says of one call.
--   Quantum/Module and Fifo/Module are scull_init_module and scull_cleanup_module of the two
--   drivers, with the calls of the kernel that take and give back, in order; Chardev is what they
--   share.
-- * Clients models the programs that use the two devices. Clients/Arguments is parse_arguments of
--   rmiller-pa5/src/producer.c, rmiller-pa5/src/consumer.c and pa4/src/scull.c; Clients/Fifo is
--   do_procs and main of the first two, whose children each make one call, and what a consumer
--   prints; Clients/Fifo/Hand puts producers, device and consumers together. The children of one
--   program run at the same time; the list of their calls stands for the runs in which no two of
--   them overlap, and Fifo/Calls is about calls that do. Clients/Quantum is
--   do_op and main of pa4/src/scull.c on the driver of Quantum; Clients/Quantum/Run is about one
--   run, Clients/Quantum/Register about runs one after the other, Clients/Quantum/Forks about its
--   children's calls in any order, which Clients/Merge defines.
-- * Edf models pa3/edf.c without its printing: isEqual, swap, deadline_Sort, removeElement and
--   setPreempt on a list of the array's length; Edf/Cycle is least_common_multiple and the loop of
--   main over the periods; Edf/Events is check_Deadlines, check_Event and the loop over the time;
--   Edf/Main is main, from the numbers entered to those printed. Whether there is memory for an
--   array is a parameter. Edf/Order is the order that the sort uses.
-- * Shell models pmeunier-project/main.c: Shell/Mode is strmode; Shell/Paths is split,
--   normalize_paths, full_path and update_cwd, on the one buffer whose words are moved by strcpy;
--   Shell/Commands and Shell/Copy are the do_ functions, on the operations of Fs; Shell/Loop is
--   the table of commands and cmdloop, on the working directory and the block buffer, a `Session`;
--   Shell/Main is fixup and main. The host's files, clock, strtol and qsort are fields of `Host`,
--   and libfuse is a `Fuse`. Shell/Copy/Show is about do_show, Shell/Commands/Listing about ls.
-- * Syscall models rmiller6_syscall of pa2/my_syscall/my_syscall.c on the user's 32 bytes;
--   Syscall/Program is pa2/syscall.c, which calls it.
-- Correspondence: an int result and a state make an `Outcome`; `attempt` is a call whose negative
-- result the caller keeps and tests later, so an error path changes what the code changes. A C
-- array is a list, read and written at an index inside it; outside it the model ends the process.
-- Strings are lists of bytes without their NUL. Numbers are natural; fields of fixed width are
-- reduced where the code stores into them. Loops are structural recursion on the array, on the
-- number of iterations left or on the tokens of the path, but for three: least_common_multiple is
-- given as many rounds as its second argument, which is proved enough for a product below 2^31; the loops of do_get and
-- do_show are given a number of rounds by their caller and say when it was too small.
-- Bounds: the products of image.c are ints, so a transfer of a byte count or an offset from 2^31 on
-- is an outcome of its own, `overflowed`, and a device that answers (`IsReady`) has less than 2^21
-- blocks. `lcm += a` of edf.c overflows from 2^31 on, another such outcome; the periods in the
-- theorem about main have a product below 2^30, so that deadlines are ints too. The sums of ages
-- and waits in edf.c are taken without overflow. cpy_stat extends the sign of a size and its sum
-- wraps around from 2^31 on. The counters of the FIFO are the semaphores' and do not overflow.
-- Not modelled: of main.c the messages on the terminal other than listings and copied files, and
-- the layout of a row by sprintf; of fs.c the freeing of temporary strings and the messages on the
-- terminal; the printing of edf.c; of the devices' programs the messages and the fields of a
-- printed struct task_info; of pa2 the kernel's headers and tables, generated code and what its
-- module prints; a second copy of edf.c at the root.
pub mod Common
pub mod Device
pub mod Fs
pub mod Chardev
pub mod Fifo
pub mod Quantum
pub mod Edf
pub mod Syscall
pub mod Shell
pub mod Clients
