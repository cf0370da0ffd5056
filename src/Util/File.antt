-- ===== src/Util/File.antt =====
-- filesystem::File of util/filesystem.h, over the system calls of a kernel with a state.
use hwpp.Prelude.{
  ℕ, bit_and, Bool, Option, none, some, leb, Bytes, bytes_eq, Outcome, ok, throw, ◌>>=◌,
}

-- The argument `whence` of lseek.
pub data Whence : Type 0 where
  seek_set seek_cur : Whence

-- The system calls that File makes; `none` is a result below 0. read yields the bytes that it got.
pub record Kernel (W : Type 0) : Type 0 where
  pub sys_open : Bytes → ℕ → W → Option ℕ × W
  pub sys_close : ℕ → W → Option ℕ × W
  pub sys_read : ℕ → ℕ → W → Option Bytes × W
  pub sys_write : ℕ → Bytes → W → Option ℕ × W
  pub sys_lseek : ℕ → ℕ → Whence → W → Option ℕ × W
  pub sys_fstat_size : ℕ → W → Option ℕ × W

-- `syserr::throw_errno_error`
pub data FileError : Type 0 where
  errno_error : FileError

pub record File : Type 0 where
  pub m_path : Bytes
  pub m_flags : ℕ
  pub m_fd : ℕ

-- The result of a call, or the exception for a result below 0.
unfoldable pub checked : {A W : Type 0} → Option A × W → Outcome FileError (A × W)
checked (none, w) = throw errno_error
checked (some a, w) = ok (a, w)

-- `flags & O_ACCMODE`; O_RDONLY is 0.
unfoldable pub mode : File → ℕ
mode f = bit_and f.m_flags 3

module _ {W : Type 0} (kernel : Kernel W) where
  unfoldable pub open_file : Bytes → ℕ → W → Outcome FileError (File × W)
  unfolding checked
  open_file path flags w = do
    (fd, w') ← checked (kernel.sys_open path flags w)
    ok (record { m_path = path; m_flags = flags; m_fd = fd }, w')

  unfoldable pub reopen : ℕ → File → W → Outcome FileError (File × W)
  unfolding checked
  reopen new_flags f w = do
    (new_fd, w') ← checked (kernel.sys_open f.m_path new_flags w)
    (r, w'') ← checked (kernel.sys_close f.m_fd w')
    ok (record f { m_flags = new_flags; m_fd = new_fd }, w'')

  unfoldable pub read_file : ℕ → File → W → Outcome FileError (Bytes × W)
  unfolding checked
  read_file size f w = checked (kernel.sys_read f.m_fd size w)

  unfoldable pub write_file : Bytes → File → W → Outcome FileError (ℕ × W)
  unfolding checked
  write_file buf f w = checked (kernel.sys_write f.m_fd buf w)

  unfoldable pub seek : ℕ → Whence → File → W → Outcome FileError (ℕ × W)
  unfolding checked
  seek offset whence f w = checked (kernel.sys_lseek f.m_fd offset whence w)

  unfoldable pub file_size : File → W → Outcome FileError (ℕ × W)
  unfolding checked
  file_size f w = checked (kernel.sys_fstat_size f.m_fd w)

  unfoldable pub tell : File → W → Outcome FileError (ℕ × W)
  unfolding seek
  tell f w = seek 0 seek_cur f w

  unfoldable pub is_eof : File → W → Outcome FileError (Bool × W)
  unfolding tell file_size
  is_eof f w = do (at, w') ← tell f w; (size, w'') ← file_size f w'; ok (leb size at, w'')
