-- ===== src/Util/Mapping.antt =====
-- filesystem::FileMapping of util/filesystem.h: mappings of files into memory. The system calls, the
-- size of a page, and single accesses to memory are arguments.
pub mod Covers
use hwpp.Prelude.{
  ℕ, ◌+◌, ◌-◌, ◌%◌, ◌^◌, bit_and, bit_xor, Bool, not, Option, eqb, if◌then◌else◌, length, Outcome,
  ok, throw, undefined, ◌>>=◌, ◌>>◌,
}
use hwpp.Util.File.{File, FileError, errno_error, checked, mode}

-- An address is not null, so the null pointer is 0. `sys_mmap` has the length, the protection, the
-- flags, the file and the offset; `load` and `store` have an address and a number of bytes.
pub record MemoryMap (W : Type 0) : Type 0 where
  pub getpagesize : ℕ
  pub sys_mmap : ℕ → ℕ → ℕ → ℕ → ℕ → W → Option ℕ × W
  pub sys_munmap : ℕ → ℕ → W → Option (Unit {0}) × W
  pub load : ℕ → ℕ → W → ℕ × W
  pub store : ℕ → ℕ → ℕ → W → W

pub record FileMapping : Type 0 where
  pub m_offset : ℕ
  pub m_length : ℕ
  pub m_prot : ℕ
  pub m_real_offset : ℕ
  pub m_real_length : ℕ
  pub m_real_address : ℕ
  pub m_address : ℕ

-- `x & ~m`
abbrev pub and_not : ℕ → ℕ → ℕ
and_not x m = bit_xor x (bit_and x m)

unfoldable pub is_mapped : FileMapping → Bool
is_mapped mapping = not (eqb mapping.m_address 0)

-- The protection that File::mmap chooses by the mode; of the fourth mode it is not set.
unfoldable pub protection : ℕ → Outcome FileError ℕ
protection access =
    if eqb access 0
    then ok 1
    else if eqb access 1
    then ok 2
    else if eqb access 2
    then ok 3
    else undefined

module _ {W : Type 0} (memory : MemoryMap W) where
  -- `do_mmap`, in 64 bits.
  unfoldable pub do_mmap : File → ℕ → ℕ → ℕ → ℕ → W → Outcome FileError (FileMapping × W)
  unfolding checked
  do_mmap f offset length prot flags w =
      let pgsize = memory.getpagesize in
      let pgmask = pgsize - 1 in
      let ptr_off = bit_and offset pgmask in
      let real_offset = and_not offset pgmask in
      let real_length = (pgsize + and_not ((length + pgmask) % 2 ^ 64) pgmask) % 2 ^ 64 in
      checked (memory.sys_mmap real_length prot flags f.m_fd real_offset w) >>= λ (address, w').
      if eqb address 0
      then throw errno_error
      else ok (
        record {
          m_offset = offset;
          m_length = length;
          m_prot = prot;
          m_real_offset = real_offset;
          m_real_length = real_length;
          m_real_address = address;
          m_address = address + ptr_off;
        },
        w',
      )

  -- `File::mmap` of an offset and a length; MAP_SHARED is 1.
  unfoldable pub mmap : File → ℕ → ℕ → W → Outcome FileError (FileMapping × W)
  unfolding protection mode do_mmap
  mmap f offset length w = do prot ← protection (mode f); do_mmap f offset length prot 1 w

  unfoldable pub unmap : FileMapping → W → Outcome FileError (FileMapping × W)
  unfolding is_mapped checked
  unmap mapping w =
      if not (is_mapped mapping)
      then ok (mapping, w)
      else (checked (memory.sys_munmap mapping.m_real_address mapping.m_real_length w)
          >>= λ (_, w'). ok (
            record mapping { m_address = 0; m_real_address = 0; m_length = 0; m_real_length = 0 },
            w',
          ))
