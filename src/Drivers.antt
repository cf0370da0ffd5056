-- ===== src/Drivers.antt =====
-- driver.h and the drivers under drivers/: their arguments, the checks of the bindings, discovery, and
-- the registry of drivers.cc.
pub mod Bindings
pub mod Pci
pub mod Cpu
pub mod Registry
pub mod Checks
pub mod Order
pub mod Discovery
pub mod PciIo
pub mod Config
pub mod Ports
pub mod MemIo
pub mod Mapped
pub mod CpuidIo
pub mod Affinity
use hwpp.Prelude.{ℕ, ◌+◌, ◌%◌, ◌^◌, Bool, ◌||◌}
use hwpp.Prelude.Int.{ℤ, pos, negsuc, diff, z_ltb}

-- `Driver::IoError`, `Driver::ArgsError` and `Driver::NotSupportedError`; and what comes up from File
-- and BitBuffer, an error of a system call and a failed assertion.
pub data DriverError : Type 0 where
  io_error args_error not_supported system_error failed_assert : DriverError

-- `BigInt::as_uint()` where a long has 64 bits: the low bits of the magnitude, which is what GMP's
-- get_ui is documented to return.
unfoldable pub as_uint : ℤ → ℕ
as_uint (pos n) = n % 2 ^ 64
as_uint (negsuc n) = (n + 1) % 2 ^ 64

-- A value and a number of bytes.
abbrev pub plus : ℤ → ℕ → ℤ
plus (pos a) b = pos (a + b)
plus (negsuc a) b = diff b (a + 1)

-- `bytes` bytes at `offset` leave the space of `limit` bytes.
unfoldable pub is_outside : ℕ → ℤ → ℕ → Bool
is_outside limit offset bytes = z_ltb offset (pos 0) || z_ltb (pos limit) (plus offset bytes)
