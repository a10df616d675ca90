-- ===== src/Syscall/Numbers.antt =====
-- The numbers of the system calls, of kernel/src/syscall/mod.rs.
use ferrugem.Prelude.{ℕ}

abbrev pub nr_read : ℕ
nr_read = 0

abbrev pub nr_write : ℕ
nr_write = 1

abbrev pub nr_poll : ℕ
nr_poll = 7

abbrev pub nr_rt_sigaction : ℕ
nr_rt_sigaction = 13

abbrev pub nr_rt_sigprocmask : ℕ
nr_rt_sigprocmask = 14

abbrev pub nr_rt_sigreturn : ℕ
nr_rt_sigreturn = 15

abbrev pub nr_open : ℕ
nr_open = 2

abbrev pub nr_close : ℕ
nr_close = 3

abbrev pub nr_stat : ℕ
nr_stat = 4

abbrev pub nr_fstat : ℕ
nr_fstat = 5

abbrev pub nr_lstat : ℕ
nr_lstat = 6

abbrev pub nr_lseek : ℕ
nr_lseek = 8

abbrev pub nr_mmap : ℕ
nr_mmap = 9

abbrev pub nr_munmap : ℕ
nr_munmap = 11

abbrev pub nr_brk : ℕ
nr_brk = 12

abbrev pub nr_ioctl : ℕ
nr_ioctl = 16

abbrev pub nr_socketpair : ℕ
nr_socketpair = 53

abbrev pub nr_sendto : ℕ
nr_sendto = 44

abbrev pub nr_recvfrom : ℕ
nr_recvfrom = 45

abbrev pub nr_pipe : ℕ
nr_pipe = 22

abbrev pub nr_yield : ℕ
nr_yield = 24

abbrev pub nr_dup : ℕ
nr_dup = 32

abbrev pub nr_dup2 : ℕ
nr_dup2 = 33

abbrev pub nr_nanosleep : ℕ
nr_nanosleep = 35

abbrev pub nr_getpid : ℕ
nr_getpid = 39

abbrev pub nr_fcntl : ℕ
nr_fcntl = 72

abbrev pub nr_getcwd : ℕ
nr_getcwd = 79

abbrev pub nr_chdir : ℕ
nr_chdir = 80

abbrev pub nr_mkdir : ℕ
nr_mkdir = 83

abbrev pub nr_rmdir : ℕ
nr_rmdir = 84

abbrev pub nr_unlink : ℕ
nr_unlink = 87

abbrev pub nr_getuid : ℕ
nr_getuid = 102

abbrev pub nr_getgid : ℕ
nr_getgid = 104

abbrev pub nr_geteuid : ℕ
nr_geteuid = 107

abbrev pub nr_getegid : ℕ
nr_getegid = 108

abbrev pub nr_getppid : ℕ
nr_getppid = 110

abbrev pub nr_clone : ℕ
nr_clone = 56

abbrev pub nr_fork : ℕ
nr_fork = 57

abbrev pub nr_execve : ℕ
nr_execve = 59

abbrev pub nr_exit : ℕ
nr_exit = 60

abbrev pub nr_wait4 : ℕ
nr_wait4 = 61

abbrev pub nr_kill : ℕ
nr_kill = 62

abbrev pub nr_uname : ℕ
nr_uname = 63

abbrev pub nr_clock_gettime : ℕ
nr_clock_gettime = 228

abbrev pub nr_exit_group : ℕ
nr_exit_group = 231

abbrev pub nr_getdents64 : ℕ
nr_getdents64 = 217

abbrev pub nr_arch_prctl : ℕ
nr_arch_prctl = 158

abbrev pub nr_gettid : ℕ
nr_gettid = 186

abbrev pub nr_tkill : ℕ
nr_tkill = 200

abbrev pub nr_futex : ℕ
nr_futex = 202

abbrev pub nr_set_robust_list : ℕ
nr_set_robust_list = 273

abbrev pub nr_pipe2 : ℕ
nr_pipe2 = 293

abbrev pub nr_set_tid_address : ℕ
nr_set_tid_address = 218

abbrev pub nr_tgkill : ℕ
nr_tgkill = 234

abbrev pub nr_mprotect : ℕ
nr_mprotect = 10

abbrev pub nr_prlimit64 : ℕ
nr_prlimit64 = 302

abbrev pub nr_getrandom : ℕ
nr_getrandom = 318

abbrev pub nr_sigaltstack : ℕ
nr_sigaltstack = 131

abbrev pub nr_openat : ℕ
nr_openat = 257

abbrev pub nr_newfstatat : ℕ
nr_newfstatat = 262

abbrev pub nr_readlinkat : ℕ
nr_readlinkat = 267

abbrev pub nr_renameat : ℕ
nr_renameat = 264

abbrev pub nr_unlinkat : ℕ
nr_unlinkat = 263

abbrev pub nr_mkdirat : ℕ
nr_mkdirat = 258
