-- ===== src/Syscall/Poll.antt =====
-- `poll` of kernel/src/syscall/mod.rs. Whether the terminal has input is an argument; a call that
-- finds nothing gives up the processor once and then returns 0.
use Prim.Native.Nat.{bit_and, bit_or}
use ferrugem.Prelude.{
  ℕ, ◌+◌, ◌^◌, Bool, ◌&&◌, ◌||◌, not, Option, none, some, List, [], ◌∷◌, if◌then◌else◌, ltb, leb,
  ◌==◌,
}
use ferrugem.Ipc.Pool.{Pool, pipe_has_data, pipe_read_open, pipe_write_open}
use ferrugem.Process.Fds.{
  FdEntry, empty, stdin, stdout, stderr, dev_null, dev_zero, dev_urandom, vfs_file, vfs_dir,
  pipe_read, pipe_write, socket_pair,
}
use ferrugem.Scheduler.{Scheduler}
use ferrugem.Scheduler.Current.{current_fd_get}

-- `fd` is its 32 bits.
pub record PollFd : Type 0 where
  pub fd : ℕ
  pub events : ℕ
  pub revents : ℕ

abbrev pub pollin : ℕ
pollin = 1

abbrev pub pollout : ℕ
pollout = 4

abbrev pub pollerr : ℕ
pollerr = 8

abbrev pub pollhup : ℕ
pollhup = 16

abbrev pub pollnval : ℕ
pollnval = 32

abbrev pub wants : (flag ev : ℕ) → Bool
wants flag ev = not (bit_and ev flag == 0)

-- The bits that are added to `revents`, and what is added to the count of ready descriptors.
abbrev pub Found : Type 0
Found = ℕ × ℕ

abbrev pub nothing : Found
nothing = (0, 0)

abbrev pub report : ℕ → Found
report bits = (bits, 1)

unfoldable pub poll_reader : Pool → (idx ev : ℕ) → Found
poll_reader p idx ev =
    if not (wants pollin ev)
    then nothing
    else if pipe_has_data idx p
    then report pollin
    else if not (pipe_write_open idx p)
    then report pollhup
    else nothing

unfoldable pub poll_writer : Pool → (idx ev : ℕ) → Found
poll_writer p idx ev =
    if not (wants pollout ev)
    then nothing
    else if pipe_read_open idx p
    then report pollout
    else report (bit_or pollerr pollhup)

-- A socket may be ready both ways.
abbrev pub both : Found → Found → Found
both (a, m) (b, n) = (bit_or a b, m + n)

abbrev pub poll_sink : ℕ → Found
poll_sink ev = if wants pollout ev then report pollout else nothing

abbrev pub poll_file : ℕ → Found
poll_file ev =
    let want = bit_and ev (bit_or pollin pollout) in
    if not (want == 0) then report want else nothing

unfoldable pub poll_entry : (has_data : Bool) → Pool → Option FdEntry → (ev : ℕ) → Found
poll_entry has_data p (some stdin) ev =
    if wants pollin ev && has_data then report pollin else nothing
poll_entry has_data p (some stdout) ev = poll_sink ev
poll_entry has_data p (some stderr) ev = poll_sink ev
poll_entry has_data p (some dev_null) ev = poll_sink ev
poll_entry has_data p (some dev_zero) ev = poll_sink ev
poll_entry has_data p (some dev_urandom) ev = poll_sink ev
poll_entry has_data p (some (vfs_file inode offset writable)) ev = poll_file ev
poll_entry has_data p (some (pipe_read idx)) ev = poll_reader p idx ev
poll_entry has_data p (some (pipe_write idx)) ev = poll_writer p idx ev
poll_entry has_data p (some (socket_pair read_idx write_idx)) ev =
    both (poll_reader p read_idx ev) (poll_writer p write_idx ev)
poll_entry has_data p (some (vfs_dir inode pos)) ev = report pollnval
poll_entry has_data p (some empty) ev = report pollnval
poll_entry has_data p none ev = report pollnval

unfoldable pub poll_one : (has_data : Bool) → Scheduler → PollFd → PollFd × ℕ
poll_one has_data s pfd =
    let (bits, n) = poll_entry has_data s.pool (current_fd_get pfd.fd s) pfd.events in
    if leb (2 ^ 31) pfd.fd
    then (record pfd { revents = 0 }, 0)
    else (record pfd { revents = bits }, n)

unfoldable pub poll_all : (has_data : Bool) → Scheduler → List PollFd → List PollFd × ℕ
poll_all has_data s [] = ([], 0)
poll_all has_data s (pfd ∷ fds) =
    let (pfd', n) = poll_one has_data s pfd in
    let (fds', ready) = poll_all has_data s fds in (pfd' ∷ fds', n + ready)

pub data PollResult : Type 0 where
  ready_now : (n : ℕ) → PollResult
  after_yield : PollResult

-- With no descriptors nothing is found, whatever the timeout.
unfoldable pub sys_poll :
    (has_data : Bool) → List PollFd → (timeout_ms : ℕ) → Scheduler → PollResult × List PollFd
sys_poll has_data [] timeout_ms s = (ready_now 0, [])
sys_poll has_data (pfd ∷ fds) timeout_ms s =
    let (out, ready) = poll_all has_data s (pfd ∷ fds) in
    (if ltb 0 ready || timeout_ms == 0 then ready_now ready else after_yield, out)
