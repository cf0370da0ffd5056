-- ===== src/Tests/Memory.antt =====
-- drivers/mem/mem_binding.cc on a small machine.
use hwpp.Prelude.{ℕ, suc, ◌≡◌, refl, some, codes, bytes_eq, throw}
use hwpp.Prelude.Int.{pos}
use hwpp.Util.File.{File}
use hwpp.Util.Mapping.{MemoryMap}
use hwpp.Drivers.{io_error}
use hwpp.Drivers.Bindings.{MemAddress}
use hwpp.Drivers.MemIo.{mem_read}

-- Pages of 4 KB that are mapped at an address of their own; each access loads 7, and the
-- state counts the loads.
abbrev machine : MemoryMap ℕ
machine = record {
  getpagesize = 4096;
  sys_mmap = λ length prot flags fd offset w. (some 1048576, w);
  sys_munmap = λ address length w. (some tt, w);
  load = λ address bytes w. (7, suc w);
  store = λ address bytes value w. w;
}

abbrev dev_mem : File
dev_mem = record { m_path = codes "/dev/mem"; m_flags = 0; m_fd = 3 }

abbrev window : MemAddress
window = record { base = 65552; size = 16 }

past_the_end : mem_read machine window dev_mem (pos 14) 32 0 ≡ throw io_error
unfolding mem_read
past_the_end = refl
