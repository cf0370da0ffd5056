-- ===== src/Drivers/Ports.antt =====
-- drivers/msr/msr_binding.cc and drivers/io/io_binding.cc: accesses to model-specific registers and to
-- ports, where a transfer that is too short is always an error.
use hwpp.Prelude.{ℕ, ◌+◌, ◌%◌, ◌^◌, eqb, if◌then◌else◌, length, Outcome, ok, throw, ◌>>=◌, ◌>>◌}
use hwpp.Prelude.Int.{ℤ, pos}
use hwpp.Util.BitBuffer.{raw_buffer, reset, memcpy, to_bitbuffer, of_bitbuffer}
use hwpp.Util.File.{Kernel, File, read_file, write_file, seek, seek_set}
use hwpp.Drivers.{DriverError, io_error, as_uint}
use hwpp.Drivers.Bindings.{MemAddress, msr_check, io_check}
use hwpp.Drivers.PciIo.{from_file, from_buffer, writable}

module _ {W : Type 0} (kernel : Kernel W) where
  -- What MsrIo::read and IoIo::read do behind their checks, from the offset to which they seek.
  unfoldable pub exact_read : File → ℕ → ℕ → W → Outcome DriverError (ℤ × W)
  unfolding seek reset memcpy read_file of_bitbuffer
  exact_read f offset width w = do
    (at, w1) ← from_file (seek kernel offset seek_set f w)
    bb ← from_buffer (reset width 0 raw_buffer)
    (got, w2) ← from_file (read_file kernel bb.m_bytes f w1)
    if eqb (length got) bb.m_bytes then ok tt else throw io_error
    value ← from_buffer (of_bitbuffer (record bb { m_data = memcpy (length got) got bb.m_data }))
    ok (pos value, w2)

  -- The same of the writes, of a value that is not negative.
  unfoldable pub exact_write : File → ℕ → ℕ → ℕ → W → Outcome DriverError (File × W)
  unfolding writable seek to_bitbuffer write_file
  exact_write file offset width value w = do
    (f, w1) ← writable kernel file w
    (at, w2) ← from_file (seek kernel offset seek_set f w1)
    bb ← from_buffer (to_bitbuffer width value)
    (count, w3) ← from_file (write_file kernel bb.m_data f w2)
    if eqb count bb.m_bytes then ok tt else throw io_error
    ok (f, w3)

  unfoldable pub msr_read : File → ℤ → ℕ → W → Outcome DriverError (ℤ × W)
  unfolding msr_check as_uint exact_read
  msr_read f address width w = do msr_check address width; exact_read f (as_uint address) width w

  unfoldable pub msr_write : File → ℤ → ℕ → ℕ → W → Outcome DriverError (File × W)
  unfolding msr_check as_uint exact_write
  msr_write f address width value w = do
    msr_check address width
    exact_write f (as_uint address) width value w

  -- The ports of a binding start at its base; the sum is one of 64 bits.
  unfoldable pub io_read : MemAddress → File → ℤ → ℕ → W → Outcome DriverError (ℤ × W)
  unfolding io_check as_uint exact_read
  io_read binding f address width w = do
    io_check binding address width
    exact_read f ((binding.base + as_uint address) % 2 ^ 64) width w

  unfoldable pub io_write : MemAddress → File → ℤ → ℕ → ℕ → W → Outcome DriverError (File × W)
  unfolding io_check as_uint exact_write
  io_write binding f address width value w = do
    io_check binding address width
    exact_write f ((binding.base + as_uint address) % 2 ^ 64) width value w
