-- ===== src/Drivers/CpuidIo.antt =====
-- drivers/cpuid/cpuid_binding.cc: reading what CPUID says on one CPU, on which the process runs for
-- the while.
use hwpp.Prelude.{ℕ, ◌/◌, ◌%◌, ◌^◌, Option, none, some, Bytes, Outcome, ok, throw, ◌>>=◌, ◌>>◌}
use hwpp.Prelude.Int.{ℤ, pos}
use hwpp.Util.BitBuffer.{raw_buffer, reset, memcpy, of_bitbuffer}
use hwpp.Drivers.{DriverError, io_error, as_uint}
use hwpp.Drivers.Bindings.{cpuid_check}
use hwpp.Drivers.PciIo.{from_buffer}

-- What the code calls: the system calls, none where they fail; CPU_SET on a set that is empty; and the
-- instruction, with the 16 bytes that it leaves in EAX, EBX, ECX and EDX.
pub record Processor (S W : Type 0) : Type 0 where
  pub sched_getaffinity : W → Option S
  pub sched_setaffinity : S → W → Option W
  pub cpu_set : ℕ → S
  pub cpuid : ℕ → ℕ → W → Bytes

-- do_io_error where a system call failed.
abbrev pub or_io_error : {A : Type 0} → Option A → Outcome DriverError A
or_io_error none = throw io_error
or_io_error (some a) = ok a

module _ {S W : Type 0} (p : Processor S W) where
  unfoldable pub cpuid_read : ℕ → ℤ → ℕ → W → Outcome DriverError (ℤ × W)
  unfolding cpuid_check as_uint reset memcpy of_bitbuffer
  cpuid_read cpu address width w = do
    cpuid_check address width
    orig_set ← or_io_error (p.sched_getaffinity w)
    w1 ← or_io_error (p.sched_setaffinity (p.cpu_set cpu) w)
    let regs = p.cpuid (as_uint address % 2 ^ 32) (as_uint address / 2 ^ 32 % 2 ^ 32) w1
    w2 ← or_io_error (p.sched_setaffinity orig_set w1)
    bb ← from_buffer (reset width 0 raw_buffer)
    value ← from_buffer (of_bitbuffer (record bb { m_data = memcpy (width / 8) regs bb.m_data }))
    ok (pos value, w2)
