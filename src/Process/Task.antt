-- ===== src/Process/Task.antt =====
-- Tasks of kernel/src/process/mod.rs. `NEXT_PID` is passed in and returned; it is a `u64`.
use ferrugem.Prelude.{ℕ, ◌+◌, ◌%◌, ◌^◌, Bool, true, false, List, replicate}
use ferrugem.Ipc.Pool.{Pool}
use ferrugem.Process.Fds
use ferrugem.Process.Fds.{FdTable}
use ferrugem.Process.Signal

pub data TaskState : Type 0 where
  ready running blocked zombie : TaskState

pub record CpuContext : Type 0 where
  pub regs : List ℕ
  pub ip : ℕ
  pub sp : ℕ
  pub flags : ℕ

unfoldable pub zero_context : CpuContext
zero_context = record { regs = replicate 16 0; ip = 0; sp = 0; flags = 0 }

pub record Task : Type 0 where
  pub pid : ℕ
  pub ppid : ℕ
  pub state : TaskState
  pub context : CpuContext
  pub kernel_sp : ℕ
  pub stack_top : ℕ
  pub exit_code : ℕ
  pub is_user : Bool
  pub page_table_phys : ℕ
  pub pending_signals : ℕ
  pub waiting_for_pid : ℕ
  pub heap_brk : ℕ
  pub fd_table : FdTable
  pub cwd : ℕ
  pub fs_base : ℕ

abbrev pub is_ready : TaskState → Bool
is_ready ready = true
is_ready _ = false

abbrev pub is_blocked : TaskState → Bool
is_blocked blocked = true
is_blocked _ = false

abbrev pub is_zombie : TaskState → Bool
is_zombie zombie = true
is_zombie _ = false

unfoldable pub idle : Task
idle = record {
  pid = 0;
  ppid = 0;
  state = ready;
  context = zero_context;
  kernel_sp = 0;
  stack_top = 0;
  exit_code = 0;
  is_user = false;
  page_table_phys = 0;
  pending_signals = 0;
  waiting_for_pid = 0;
  heap_brk = 0;
  fd_table = Fds.new;
  cwd = 0;
  fs_base = 0;
}

abbrev pub next_pid_after : ℕ → ℕ
next_pid_after p = (p + 1) % 2 ^ 64

-- `Task::new`; the second component is `NEXT_PID` afterwards.
unfoldable pub new : (ip sp next_pid : ℕ) → Task × ℕ
unfolding idle
new ip sp p =
    (record idle { pid = p; context = record zero_context { ip = ip; sp = sp } }, next_pid_after p)

unfoldable pub new_kernel : (kernel_sp stack_top ppid next_pid : ℕ) → Task × ℕ
unfolding idle
new_kernel kernel_sp stack_top ppid p = (
  record idle { pid = p; ppid = ppid; kernel_sp = kernel_sp; stack_top = stack_top },
  next_pid_after p,
)

unfoldable pub new_user : (kernel_sp stack_top page_table_phys ppid next_pid : ℕ) → Task × ℕ
unfolding idle
new_user kernel_sp stack_top page_table_phys ppid p = (
  record idle {
    pid = p;
    ppid = ppid;
    kernel_sp = kernel_sp;
    stack_top = stack_top;
    is_user = true;
    page_table_phys = page_table_phys;
  },
  next_pid_after p,
)

-- `Task::exit`: it closes the descriptors, and so changes the pipe pool. The code is an `i32`, here
-- by its bit pattern.
unfoldable pub exit : ℕ → Task → Pool → Task × Pool
exit code t pool =
    let (fds, pool') = Fds.close_all t.fd_table pool in
    (record t { fd_table = fds; exit_code = code; state = zombie }, pool')

unfoldable pub raise_signal : ℕ → Task → Task × Bool
raise_signal sig t =
    let (pending, done) = Signal.raise_signal sig t.pending_signals in
    (record t { pending_signals = pending }, done)

unfoldable pub take_signal : ℕ → Task → Task × Bool
take_signal sig t =
    let (pending, taken) = Signal.take_signal sig t.pending_signals in
    (record t { pending_signals = pending }, taken)
