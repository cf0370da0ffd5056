-- ===== src/Tests/Drivers.antt =====
-- The drivers on small inputs.
use hwpp.Prelude.{
  ℕ, ◌+◌, ◌/◌, ◌^◌, ◌≤◌, ◌<◌, ◌≡◌, refl, ap, ◌↔◌, ◌⊎◌, Option, some, List, [], ◌∷◌, ◌++◌, arith,
  length, take, drop, Bytes, codes, bytes_eq, ok, throw, ◌>>=◌,
}
use hwpp.Prelude.Int.{pos}
use hwpp.Drivers.{io_error}
use hwpp.Drivers.Bindings.{pci_new_binding, io_new_binding, pci_check, io_check}
use hwpp.Drivers.Checks.{IsSupported, pci_check_iff, pci_new_binding-ranges, io_check-whole_space}
use hwpp.Drivers.Cpu.{decode, with_extended, intel, amd}
use hwpp.Util.BitBuffer.Number.{le_value}
use hwpp.Util.File.{Kernel, Whence, seek_set, seek_cur}
use hwpp.Drivers.Bindings.{PciAddress}
use hwpp.Drivers.Ports.{msr_read}
use hwpp.Drivers.PciIo.{pci_read}
use hwpp.Drivers.Config.{IsRegularFile, padded, pci_read-le_value}

pci_check_iff_example :
    (pci_check (pos 4092) 32 ≡ ok tt)
    ↔ (IsSupported 32 × (n : ℕ) × (pos 4092 ≡ pos n) × (n + 32 / 8 ≤ 4096))
pci_check_iff_example = pci_check_iff (pos 4092) 32

pci_new_binding-ranges_example :
    (5 < 256)
    × (31 < 32)
    × (7 < 8)
    × (0 < 2 ^ 32)
    × ((pos 5 ∷ pos 31 ∷ pos 7 ∷ [] ≡ pos 0 ∷ pos 5 ∷ pos 31 ∷ pos 7 ∷ [])
        ⊎ ((◌≡◌ {A = ℕ} 0 0) × (pos 5 ∷ pos 31 ∷ pos 7 ∷ [] ≡ pos 5 ∷ pos 31 ∷ pos 7 ∷ [])))
unfolding pci_new_binding
pci_new_binding-ranges_example =
    pci_new_binding-ranges (pos 5 ∷ pos 31 ∷ pos 7 ∷ [])
      (record { segment = 0; bus = 5; device = 31; function = 7 }) refl

io_check-whole_space_example :
    (io_new_binding (pos 0 ∷ pos 65536 ∷ []) >>= λ binding. io_check binding (pos 128) 8)
    ≡ throw io_error
io_check-whole_space_example = io_check-whole_space (pos 128) 8

-- A Pentium M: family 6, model 13 with its extended part, stepping 8.
decode-pentium_m :
    decode intel 1752 ≡ record { vendor = intel; family = 6; model = 13; stepping = 8 }
unfolding decode with_extended
decode-pentium_m = refl

-- A K8: family 15 and its extended part 0, so no more is added; model 4 with its extended part 2 above.
decode-k8 : decode amd 134978 ≡ record { vendor = amd; family = 15; model = 36; stepping = 2 }
unfolding decode with_extended
decode-k8 = refl

abbrev pci_only : List (Bytes × ℕ)
pci_only = (codes "pci", 1) ∷ []

-- A kernel with one regular file: its bytes and the offset.
abbrev disk_seek : ℕ → ℕ → Whence → Bytes × ℕ → Option ℕ × (Bytes × ℕ)
disk_seek fd n seek_set (bytes, offset) = (some n, (bytes, n))
disk_seek fd n seek_cur (bytes, offset) = (some (offset + n), (bytes, offset + n))

abbrev disk : Kernel (Bytes × ℕ)
disk = record {
  sys_open = λ path flags w. (some 3, w);
  sys_close = λ fd w. (some 0, w);
  sys_read = λ fd n w. (some (take n (drop w.1 w.0)), (w.0, w.1 + length (take n (drop w.1 w.0))));
  sys_write = λ fd buf w.
      (some (length buf), (take w.1 w.0 ++ buf ++ drop (w.1 + length buf) w.0, w.1 + length buf));
  sys_lseek = disk_seek;
  sys_fstat_size = λ fd w. (some (length w.0), w);
}

disk-IsRegularFile : IsRegularFile disk 3 (λ w. w.0) (λ w. w.1)
disk-IsRegularFile = record {
  seek_to = λ n w. ((w.0, n), refl, refl, refl);
  told = λ w. let same : w.1 + 0 ≡ w.1 = omega arith in ap (λ o. (some o, (w.0, o))) same;
  sized = λ w. refl;
  read_from = λ n w. ((w.0, w.1 + length (take n (drop w.1 w.0))), refl, refl, refl);
}

abbrev card : PciAddress
card = record { segment = 0; bus = 1; device = 2; function = 3 }

card-allowed : pci_check (pos 2) 32 ≡ ok tt
unfolding pci_check
card-allowed = refl

-- Four bytes from offset 2 of three: 0x80 and three times 0xff.
pci_read-le_value_example :
    (w' : Bytes × ℕ) × (pci_read disk
        (record {
          m_address = card;
          m_file = record { m_path = codes "/config"; m_flags = 0; m_fd = 3 };
        })
        (pos 2)
        32
        (134 ∷ 0 ∷ 128 ∷ [], 0)
      ≡ ok (pos (le_value (padded (32 / 8) (take (32 / 8) (drop 2 (134 ∷ 0 ∷ 128 ∷ []))))), w'))
    × (w'.0 ≡ 134 ∷ 0 ∷ 128 ∷ [])
pci_read-le_value_example =
    pci_read-le_value disk (λ w. w.0) (λ w. w.1)
      (record { m_path = codes "/config"; m_flags = 0; m_fd = 3 }) disk-IsRegularFile 2 32 card
      (134 ∷ 0 ∷ 128 ∷ [], 0) card-allowed

-- Eight bytes of a register; and the file that ends before.
msr_read-whole :
    msr_read disk
      (record { m_path = codes "/msr"; m_flags = 0; m_fd = 3 })
      (pos 1)
      64
      (0 ∷ 1 ∷ 2 ∷ 0 ∷ 0 ∷ 0 ∷ 0 ∷ 0 ∷ 0 ∷ [], 0)
    ≡ ok (pos 513, ((0 ∷ 1 ∷ 2 ∷ 0 ∷ 0 ∷ 0 ∷ 0 ∷ 0 ∷ 0 ∷ []), 9))
unfolding msr_read
msr_read-whole = refl

msr_read-short :
    msr_read disk
      (record { m_path = codes "/msr"; m_flags = 0; m_fd = 3 })
      (pos 4)
      64
      (0 ∷ 1 ∷ 2 ∷ 0 ∷ 0 ∷ 0 ∷ 0 ∷ 0 ∷ 0 ∷ [], 0)
    ≡ throw io_error
unfolding msr_read
msr_read-short = refl
