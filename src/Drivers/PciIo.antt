-- ===== src/Drivers/PciIo.antt =====
-- drivers/pci/pci_binding.cc: reading and writing the configuration space of a device through its file.
use hwpp.Prelude.{ℕ, eqb, if◌then◌else◌, length, Outcome, ok, throw, undefined, ◌>>=◌, ◌>>◌}
use hwpp.Prelude.Int.{ℤ, pos}
use hwpp.Util.BitBuffer.{
  AssertError, assertion, raw_buffer, reset, memcpy, to_bitbuffer, of_bitbuffer,
}
use hwpp.Util.File.{
  Kernel, File, FileError, errno_error, mode, reopen, read_file, write_file, seek, seek_set, is_eof,
}
use hwpp.Drivers.{DriverError, io_error, system_error, failed_assert, as_uint}
use hwpp.Drivers.Bindings.{PciAddress, pci_check}

pub record PciIo : Type 0 where
  pub m_address : PciAddress
  pub m_file : File

-- Exceptions of File and failed assertions of BitBuffer pass through.
abbrev pub from_file : {A : Type 0} → Outcome FileError A → Outcome DriverError A
from_file (ok a) = ok a
from_file (throw errno_error) = throw system_error
from_file undefined = undefined

abbrev pub from_buffer : {A : Type 0} → Outcome AssertError A → Outcome DriverError A
from_buffer (ok a) = ok a
from_buffer (throw assertion) = throw failed_assert
from_buffer undefined = undefined

module _ {W : Type 0} (kernel : Kernel W) where
  -- A transfer that is too short is an error, but at the end of the file.
  unfoldable pub allow_eof : ℕ → ℕ → File → W → Outcome DriverError (Unit {0} × W)
  unfolding is_eof
  allow_eof count wanted f w =
      if eqb count wanted
      then ok (tt, w)
      else (from_file (is_eof kernel f w) >>= λ (eof, w').
          if eof then ok (tt, w') else throw io_error)

  unfoldable pub pci_read : PciIo → ℤ → ℕ → W → Outcome DriverError (ℤ × W)
  unfolding pci_check as_uint seek reset memcpy read_file allow_eof of_bitbuffer
  pci_read io address width w = do
    pci_check address width
    (at, w1) ← from_file (seek kernel (as_uint address) seek_set io.m_file w)
    bb ← from_buffer (reset width 255 raw_buffer)
    (got, w2) ← from_file (read_file kernel bb.m_bytes io.m_file w1)
    (_, w3) ← allow_eof (length got) bb.m_bytes io.m_file w2
    value ← from_buffer (of_bitbuffer (record bb { m_data = memcpy (length got) got bb.m_data }))
    ok (pos value, w3)

  -- The file that is written to: reopened for reading and writing (O_RDWR is 2) if it is not open so.
  unfoldable pub writable : File → W → Outcome DriverError (File × W)
  unfolding mode reopen
  writable f w = if eqb (mode f) 0 then from_file (reopen kernel 2 f w) else ok (f, w)

  -- Of a value that is not negative.
  unfoldable pub pci_write : PciIo → ℤ → ℕ → ℕ → W → Outcome DriverError (PciIo × W)
  unfolding pci_check as_uint writable seek to_bitbuffer write_file allow_eof
  pci_write io address width value w = do
    pci_check address width
    (f, w1) ← writable io.m_file w
    (at, w2) ← from_file (seek kernel (as_uint address) seek_set f w1)
    bb ← from_buffer (to_bitbuffer width value)
    (count, w3) ← from_file (write_file kernel bb.m_data f w2)
    (_, w4) ← allow_eof count bb.m_bytes f w3
    ok (record io { m_file = f }, w4)
