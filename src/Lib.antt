-- ===== src/Lib.antt =====
-- A model of the Ferrugem kernel, with the theorems that make its parts correct. Ferrugem is a
-- Unix-like kernel in Rust; the model covers the parts whose work is on data structures of its own
-- and on physical memory, and leaves out registers and devices.
--
-- The parts, and how they interact:
--   * Process (kernel/src/process/mod.rs). A task has a pending-signal word (Process/Signal), a
--     table of sixteen descriptors (Process/Fds) and the rest of its record (Process/Task). Closing
--     a descriptor of a pipe gives its ends back to the pool, so these functions take the pool and
--     return it.
--   * Ipc (kernel/src/ipc/mod.rs). Ipc/Pipe is the byte ring of one pipe, Ipc/Pool the static pool
--     of eight pipes with their counts of open ends.
--   * Scheduler (kernel/src/scheduler/mod.rs). The statics of that file, the pool and NEXT_PID are
--     one record. Scheduler/Pick is the choice that `schedule` makes, Scheduler/Wake the blocking
--     and waking, Scheduler/Exit the end of tasks and `waitpid`, Scheduler/Current what the system
--     calls do to the current task, Scheduler/Spawn the making of tasks, Scheduler/Switch the two
--     halves of `schedule` around the switch, Scheduler/Stack the first stack of a program.
--   * Memory (kernel/src/memory). Memory/Mmap is the memory map, Memory/Bitmap the frame allocator
--     with its initialisation from the map, Memory/Bump the allocator before that, Memory/Pages the
--     page allocator over both.
--   * Vfs (kernel/src/vfs/ramfs.rs). Vfs/Path cuts up paths, Vfs/RamFs holds inodes, lookup and
--     permissions, Vfs/RamFs/Ops the operations by path, Vfs/RamFs/Inodes those by inode.
--   * Fs (kernel/src/fs/mod.rs) is the one file system of the kernel, and Syscall
--     (kernel/src/syscall/mod.rs) the system calls: Syscall/Numbers and Syscall/Dispatch are the table
--     of them, Syscall/Pipes makes and copies descriptors, Syscall/Files reads, writes and closes
--     them, Syscall/Open opens and seeks, Syscall/Stat describes files and directories, Syscall/Poll
--     is `poll`, Syscall/Memory changes the address space, Syscall/Control is the rest. They work on
--     the scheduler and the file system together.
--   * Machine is physical memory as bytes beside the page allocator's state, for the code that works
--     through raw pointers: Arch/Paging (kernel/src/arch/x86_64/paging.rs, with the constants of
--     kernel/src/arch/mod.rs in Arch), Arch/Sv39 (kernel/src/arch/riscv64/paging.rs), Arch/Aarch64
--     (kernel/src/arch/aarch64/paging.rs), Elf (kernel/src/elf/mod.rs), which maps a program through
--     Arch/Paging, Slab (kernel/src/memory/slab.rs and heap.rs), and Scheduler/Stack.
--   * Boards reads the memory map of the boot loader from Machine: Boards/Multiboot
--     (kernel/src/boards/qemu_pc/multiboot.rs) and Boards/Fdt
--     (kernel/src/boards/qemu_virt_riscv64/fdt.rs).
--   * Net (kernel/src/net) holds the parsers and builders of packet headers.
--   * Shell/Users (kernel/src/shell/users.rs) is the user table.
--   * RingBuf (kernel/src/drivers/ring_buf.rs), the byte ring of the input drivers. Circular is the
--     arithmetic that it shares with Ipc/Pipe. Keyboard (kernel/src/drivers/keyboard/src/ps2.rs) is
--     the table of scancodes.
--   * Prelude holds tests, lists, slices and searches, Bits the bits of machine words, Bytes the
--     words and fields of byte buffers.
-- A child module of a part holds its proofs, and is named for what it proves.
--
-- A function of the source that changes statics or `&mut self` is a function that returns the new
-- state beside its result; a loop `for i in a..b` that returns at the first hit is `find_in`. Numbers
-- are natural numbers; where a sum or a difference of the source wraps, saturates or is checked, the
-- definition says so. Functions keep the source's names, except that a field or an argument `data`
-- is `bytes` or `src`.
--
-- Some definitions run on fuel. `scan` of Memory/Bitmap gets one unit for each frame and one more,
-- and each round goes on by a frame or more. `ancestors` of Vfs/RamFs/Inodes stops after sixteen
-- inodes, as the source does. The loop of the Internet checksum is two rounds in Net/Ipv4, since the
-- first leaves a carry of one at most. The table of Boards/Multiboot gets a unit for each 24 bytes,
-- the least that an entry takes. The device tree of Boards/Fdt has no bound in the source, and its
-- walk has a fuel that the caller chooses; `none` is a walk that does not end within it. A read of
-- the loader outside of its file is a value of its own, a fault, and not a default.
--
-- Not modelled: the context switch's registers, the traps, the devices of the boards and their
-- drivers, the page-fault handler, `execve`, `clone` and `fork` as calls, which start from the saved
-- registers, and the shell. User memory is passed to a system call as values, and null pointers and
-- `read_path` are left out. Functions of the scheduler that end in a call of `schedule` are modelled
-- up to that call. Interrupts are disabled in the functions that the model treats as one step.
pub mod Prelude
pub mod Bits
pub mod Circular
pub mod RingBuf
pub mod Ipc
pub mod Process
pub mod Scheduler
pub mod Memory
pub mod Vfs
pub mod Fs
pub mod Syscall
pub mod Shell
pub mod Arch
pub mod Elf
pub mod Net
pub mod Slab
pub mod Bytes
pub mod Boards
pub mod Keyboard
pub mod Machine
