-- ===== src/Drivers/MemIo.antt =====
-- drivers/mem/mem_binding.cc: accesses to memory, each by one load or store in a mapping of its own.
use hwpp.Prelude.{
  ℕ, ◌+◌, ◌*◌, ◌%◌, ◌^◌, ltb, eqb, if◌then◌else◌, length, Outcome, ok, throw, ◌>>=◌, ◌>>◌,
}
use hwpp.Prelude.Int.{ℤ, pos}
use hwpp.Word.{bits_to_bytes}
use hwpp.Util.File.{Kernel, File, mode, reopen}
use hwpp.Util.Mapping.{MemoryMap, FileMapping, mmap, unmap}
use hwpp.Drivers.{DriverError, io_error, as_uint}
use hwpp.Drivers.Bindings.{MemAddress, mem_check}
use hwpp.Drivers.PciIo.{from_file}

-- O_RDWR | O_SYNC
abbrev pub rdwr_sync : ℕ
rdwr_sync = 1052674

module _ {W : Type 0} (memory : MemoryMap W) where
  -- `MemIo::map`; the sums are of 64 bits.
  unfoldable pub mem_map : MemAddress → File → ℤ → ℕ → W → Outcome DriverError (FileMapping × W)
  unfolding as_uint mmap
  mem_map binding f offset length w =
      if ltb binding.size ((as_uint offset + length) % 2 ^ 64)
      then throw io_error
      else from_file (mmap memory f ((binding.base + as_uint offset) % 2 ^ 64) length w)

  -- One load in a mapping that goes at its end.
  unfoldable pub do_read : MemAddress → File → ℤ → ℕ → W → Outcome DriverError (ℤ × W)
  unfolding mem_map unmap
  do_read binding f offset bytes w = do
    (mapping, w1) ← mem_map binding f offset bytes w
    let (loaded, w2) = memory.load mapping.m_address bytes w1 in
        from_file (unmap memory mapping w2) >>= λ (_, w3). ok (pos loaded, w3)

  unfoldable pub mem_read : MemAddress → File → ℤ → ℕ → W → Outcome DriverError (ℤ × W)
  unfolding mem_check do_read bits_to_bytes
  mem_read binding f address width w = do
    mem_check address width
    do_read binding f address (bits_to_bytes width) w

  -- One store, of a value that is not negative, which is cut to so many bytes. The file is opened for
  -- writing first.
  unfoldable pub do_write :
      Kernel W → MemAddress → File → ℤ → ℕ → ℕ → W → Outcome DriverError (File × W)
  unfolding mode reopen mem_map unmap
  do_write kernel binding file offset bytes value w = do
    (f, w1) ←
        (if eqb (mode file) 0 then from_file (reopen kernel rdwr_sync file w) else ok (file, w))
    (mapping, w2) ← mem_map binding f offset bytes w1
    let w3 = memory.store mapping.m_address bytes (value % 2 ^ 64 % 2 ^ (8 * bytes)) w2 in
        from_file (unmap memory mapping w3) >>= λ (_, w4). ok (f, w4)

  unfoldable pub mem_write :
      Kernel W → MemAddress → File → ℤ → ℕ → ℕ → W → Outcome DriverError (File × W)
  unfolding mem_check do_write bits_to_bytes
  mem_write kernel binding file address width value w = do
    mem_check address width
    do_write kernel binding file address (bits_to_bytes width) value w
