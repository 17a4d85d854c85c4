-- ===== src/Fork/Start.antt =====
-- `afork` of src/aiotools/fork.py in the parent: the test for `pidfd_open`, the ends of the pipe and the
-- descriptor that the parent has open, and the handle that it gets.
use aiotools.Prelude.{ℕ, if◌then◌else◌, Bool, true, false, Option, none, some}
use aiotools.Errors.{Exception, Result, ok, raise}
use aiotools.Fork.Posix
use aiotools.Fork.Posix.{PosixChildProcess}
use aiotools.Fork.Pidfd
use aiotools.Fork.Pidfd.{PidfdChildProcess}

-- How `os.pidfd_open(0, 0)` ends, which no kernel should answer with a descriptor.
pub data Probe : Type 0 where
  opened : Probe
  ebadf einval other_errno : Probe

-- `_has_pidfd`; `none` if `os` has no `pidfd_open`
unfoldable pub has_pidfd : Option Probe → Bool
has_pidfd (some ebadf) = true
has_pidfd (some einval) = true
has_pidfd _ = false

pub data Handle : Type 0 where
  posix_child : PosixChildProcess → Handle
  pidfd_child : PidfdChildProcess → Handle

-- What the parent holds: both ends of the pipe, the reader of the loop on it, and a pidfd that no
-- handle has yet.
pub record Parent : Type 0 where
  pub read_end : Bool
  pub write_end : Bool
  pub has_reader : Bool
  pub spare_pidfd : Bool

-- after `os.pipe()` and `os.fork()`
unfoldable pub begin : Parent
begin = record { read_end = true; write_end = true; has_reader = false; spare_pidfd = false }

-- How `await init_event.wait()` ends: the pipe can be read, or the task that waits is cancelled.
pub data Notice : Type 0 where
  notified : Notice
  interrupted : Exception → Notice

-- from `loop.add_reader` to the end of both functions, which return `result`
unfoldable pub await_ready : {A : Type 0} → Notice → A → Parent → Parent × Result A
await_ready notified result p = (record p { read_end = false; has_reader = false }, ok result)
await_ready (interrupted e) result p = (record p { has_reader = true }, raise e)

-- `_fork_posix` in the parent, where the child's number is `pid`
unfoldable pub fork_posix : Notice → ℕ → Parent → Parent × Result ℕ
fork_posix notice pid p = await_ready notice pid (record p { write_end = false })

-- `_clone_pidfd` in the parent, where `refused` is the error of `os.pidfd_open`
unfoldable pub clone_pidfd : Option Exception → Notice → ℕ → Parent → Parent × Result ℕ
clone_pidfd (some e) notice pid p = (record p { write_end = false }, raise e)
clone_pidfd none notice pid p =
    await_ready notice pid (record p { write_end = false; spare_pidfd = true })

-- The end of `afork`: `PidfdChildProcess` takes the descriptor over.
unfoldable pub make_pidfd : Parent × Result ℕ → Parent × Result Handle
make_pidfd (p, ok pid) = (record p { spare_pidfd = false }, ok (pidfd_child (Pidfd.init pid)))
make_pidfd (p, raise e) = (p, raise e)

unfoldable pub make_posix : Parent × Result ℕ → Parent × Result Handle
make_posix (p, ok pid) = (p, ok (posix_child (Posix.init pid)))
make_posix (p, raise e) = (p, raise e)

-- `afork`
unfoldable pub afork : Bool → Option Exception → Notice → ℕ → Parent × Result Handle
unfolding begin fork_posix clone_pidfd make_posix make_pidfd
afork pidfds refused notice pid =
    if pidfds
    then make_pidfd (clone_pidfd refused notice pid begin)
    else make_posix (fork_posix notice pid begin)
