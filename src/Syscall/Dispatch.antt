-- ===== src/Syscall/Dispatch.antt =====
-- `dispatch` of kernel/src/syscall/mod.rs: the handler of each system call, with its arguments.
-- Pointers are addresses here.
use ferrugem.Prelude.{ℕ, ◌%◌, ◌^◌, ◌||◌, List, [], ◌∷◌, if◌then◌else◌, ◌==◌}
use ferrugem.Syscall.Numbers.{
  nr_read, nr_write, nr_poll, nr_rt_sigaction, nr_rt_sigprocmask, nr_rt_sigreturn, nr_open,
  nr_close, nr_stat, nr_fstat, nr_lstat, nr_lseek, nr_mmap, nr_munmap, nr_brk, nr_ioctl,
  nr_socketpair, nr_sendto, nr_recvfrom, nr_pipe, nr_yield, nr_dup, nr_dup2, nr_nanosleep,
  nr_getpid, nr_fcntl, nr_getcwd, nr_chdir, nr_mkdir, nr_rmdir, nr_unlink, nr_getuid, nr_getgid,
  nr_geteuid, nr_getegid, nr_getppid, nr_clone, nr_fork, nr_execve, nr_exit, nr_wait4, nr_kill,
  nr_uname, nr_clock_gettime, nr_exit_group, nr_getdents64, nr_arch_prctl, nr_gettid, nr_tkill,
  nr_futex, nr_set_robust_list, nr_pipe2, nr_set_tid_address, nr_tgkill, nr_mprotect, nr_prlimit64,
  nr_getrandom, nr_sigaltstack, nr_openat, nr_newfstatat, nr_readlinkat, nr_renameat, nr_unlinkat,
  nr_mkdirat,
}

-- A call of a handler, or a result that `dispatch` gives itself; an error is without its sign.
pub data Call : Type 0 where
  returns : (n : ℕ) → Call
  fails : (errno : ℕ) → Call
  sys_read : (fd buf len : ℕ) → Call
  sys_write : (fd buf len : ℕ) → Call
  sys_poll : (fds nfds timeout_ms : ℕ) → Call
  sys_rt_sigaction : (sig act oact sigsetsize : ℕ) → Call
  sys_rt_sigprocmask : (how set oldset sigsetsize : ℕ) → Call
  sys_arch_prctl : (code addr : ℕ) → Call
  sys_sigaltstack : (ss old_ss : ℕ) → Call
  sys_getpid : Call
  sys_kill : (target_pid sig : ℕ) → Call
  sys_futex : (uaddr op val : ℕ) → Call
  sys_getrandom : (buf len flags : ℕ) → Call
  sys_openat : (dirfd path flags mode : ℕ) → Call
  sys_newfstatat : (dirfd path buf flags : ℕ) → Call
  sys_unlinkat : (dirfd path flags : ℕ) → Call
  sys_mkdirat : (dirfd path mode : ℕ) → Call
  sys_open : (path flags mode : ℕ) → Call
  sys_close : (fd : ℕ) → Call
  sys_stat : (path buf : ℕ) → Call
  sys_fstat : (fd buf : ℕ) → Call
  sys_lseek : (fd offset whence : ℕ) → Call
  sys_mmap : (addr len prot flags fd offset : ℕ) → Call
  sys_munmap : (addr len : ℕ) → Call
  sys_brk : (addr : ℕ) → Call
  sys_ioctl : (fd cmd arg : ℕ) → Call
  sys_pipe : (fds : ℕ) → Call
  sys_socketpair : (sv : ℕ) → Call
  sys_yield : Call
  sys_dup : (oldfd : ℕ) → Call
  sys_dup2 : (oldfd newfd : ℕ) → Call
  sys_nanosleep : (req : ℕ) → Call
  sys_fcntl : (fd cmd arg : ℕ) → Call
  sys_getcwd : (buf size : ℕ) → Call
  sys_chdir : (path : ℕ) → Call
  sys_mkdir : (path mode : ℕ) → Call
  sys_rmdir : (path : ℕ) → Call
  sys_unlink : (path : ℕ) → Call
  sys_getppid : Call
  sys_clone : (flags child_stack : ℕ) → Call
  sys_fork : Call
  sys_execve : (path argv envp : ℕ) → Call
  sys_exit : (code : ℕ) → Call
  sys_wait4 : (pid status options : ℕ) → Call
  sys_uname : (buf : ℕ) → Call
  sys_clock_gettime : (clock_id ts : ℕ) → Call
  sys_getdents64 : (fd buf count : ℕ) → Call

unfoldable pub handler_of : (nr a0 a1 a2 a3 a4 a5 : ℕ) → Call
handler_of nr a0 a1 a2 a3 a4 a5 =
    if nr == nr_read
    then sys_read a0 a1 a2
    else if nr == nr_write
    then sys_write a0 a1 a2
    else if nr == nr_poll
    then sys_poll a0 a1 (a2 % 2 ^ 32)
    else if nr == nr_rt_sigaction
    then sys_rt_sigaction a0 a1 a2 a3
    else if nr == nr_rt_sigprocmask
    then sys_rt_sigprocmask a0 a1 a2 a3
    else if nr == nr_rt_sigreturn
    then returns 0
    else if nr == nr_arch_prctl
    then sys_arch_prctl a0 a1
    else if nr == nr_mprotect
    then returns 0
    else if nr == nr_sigaltstack
    then sys_sigaltstack a0 a1
    else if nr == nr_gettid
    then sys_getpid
    else if nr == nr_tkill
    then sys_kill a0 a1
    else if nr == nr_tgkill
    then sys_kill a1 a2
    else if nr == nr_futex
    then sys_futex a0 a1 a2
    else if nr == nr_set_tid_address
    then sys_getpid
    else if nr == nr_set_robust_list
    then returns 0
    else if nr == nr_prlimit64
    then returns 0
    else if nr == nr_getrandom
    then sys_getrandom a0 a1 a2
    else if nr == nr_openat
    then sys_openat a0 a1 a2 a3
    else if nr == nr_newfstatat
    then sys_newfstatat a0 a1 a2 a3
    else if nr == nr_readlinkat
    then fails 22
    else if nr == nr_renameat
    then fails 38
    else if nr == nr_unlinkat
    then sys_unlinkat a0 a1 a2
    else if nr == nr_mkdirat
    then sys_mkdirat a0 a1 a2
    else if nr == nr_open
    then sys_open a0 a1 a2
    else if nr == nr_close
    then sys_close a0
    else if nr == nr_stat
    then sys_stat a0 a1
    else if nr == nr_fstat
    then sys_fstat a0 a1
    else if nr == nr_lstat
    then sys_stat a0 a1
    else if nr == nr_lseek
    then sys_lseek a0 a1 a2
    else if nr == nr_mmap
    then sys_mmap a0 a1 a2 a3 a4 a5
    else if nr == nr_munmap
    then sys_munmap a0 a1
    else if nr == nr_brk
    then sys_brk a0
    else if nr == nr_ioctl
    then sys_ioctl a0 a1 a2
    else if nr == nr_pipe
    then sys_pipe a0
    else if nr == nr_pipe2
    then sys_pipe a0
    else if nr == nr_socketpair
    then sys_socketpair a3
    else if nr == nr_sendto
    then sys_write a0 a1 a2
    else if nr == nr_recvfrom
    then sys_read a0 a1 a2
    else if nr == nr_yield
    then sys_yield
    else if nr == nr_dup
    then sys_dup a0
    else if nr == nr_dup2
    then sys_dup2 a0 a1
    else if nr == nr_nanosleep
    then sys_nanosleep a0
    else if nr == nr_getpid
    then sys_getpid
    else if nr == nr_fcntl
    then sys_fcntl a0 a1 a2
    else if nr == nr_getcwd
    then sys_getcwd a0 a1
    else if nr == nr_chdir
    then sys_chdir a0
    else if nr == nr_mkdir
    then sys_mkdir a0 a1
    else if nr == nr_rmdir
    then sys_rmdir a0
    else if nr == nr_unlink
    then sys_unlink a0
    else if nr == nr_getuid || nr == nr_geteuid || nr == nr_getgid || nr == nr_getegid
    then returns 0
    else if nr == nr_getppid
    then sys_getppid
    else if nr == nr_clone
    then sys_clone a0 a1
    else if nr == nr_fork
    then sys_fork
    else if nr == nr_execve
    then sys_execve a0 a1 a2
    else if nr == nr_exit
    then sys_exit (a0 % 2 ^ 32)
    else if nr == nr_exit_group
    then sys_exit (a0 % 2 ^ 32)
    else if nr == nr_wait4
    then sys_wait4 a0 a1 a2
    else if nr == nr_kill
    then sys_kill a0 a1
    else if nr == nr_uname
    then sys_uname a0
    else if nr == nr_clock_gettime
    then sys_clock_gettime a0 a1
    else if nr == nr_getdents64
    then sys_getdents64 a0 a1 a2
    else fails 38

-- The arguments, which a fork gives to the child, and the handler.
unfoldable pub dispatch : (nr a0 a1 a2 a3 a4 a5 : ℕ) → List ℕ × Call
dispatch nr a0 a1 a2 a3 a4 a5 = (a0 ∷ a1 ∷ a2 ∷ a3 ∷ a4 ∷ a5 ∷ [], handler_of nr a0 a1 a2 a3 a4 a5)
