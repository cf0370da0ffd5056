-- ===== src/Drivers/Mapped.antt =====
-- Where the accesses to memory go.
use hwpp.Prelude.{ℕ, ◌+◌, ◌^◌, ◌≤◌, ◌≡◌, ok}
use hwpp.Util.File.{File}
use hwpp.Prelude.Int.{ℤ, pos}
use hwpp.Drivers.Bindings.{MemAddress}
use hwpp.Util.Mapping.{mmap, unmap, MemoryMap, FileMapping}
use hwpp.Util.Mapping.Covers.{Covers}

module _ {W : Type 0} (memory : MemoryMap W) where
  -- What a value and a final state are: the result of one load, from a mapping that holds the bytes of
  -- the value, and the state that this load and the removal of the mapping leave.
  unfoldable pub Loads : ℕ → MemAddress → File → ℕ → ℕ → ℤ → W → W → Type 0
  Loads k binding f a size v w w' =
      (a + size ≤ binding.size)
      × (mapping : FileMapping) × (w1 : W) × (mmap memory f (binding.base + a) size w
          ≡ ok (mapping, w1))
      × Covers (2 ^ k) (binding.base + a) size mapping
      × (v ≡ pos (memory.load mapping.m_address size w1).0)
      × (removed : FileMapping) × (unmap memory mapping (memory.load mapping.m_address size w1).1
          ≡ ok (removed, w'))
