-- ===== src/Drivers/Bindings.antt =====
-- The addresses of devices, the arguments of new_binding, and what the bindings check before an access:
-- drivers/pci, drivers/msr, drivers/mem, drivers/io and drivers/cpuid.
use hwpp.Prelude.{
  ℕ, ◌+◌, ◌-◌, ◌%◌, ◌^◌, Bool, not, ◌||◌, List, [], ◌∷◌, ltb, eqb, if◌then◌else◌, Outcome, ok,
  throw, ◌>>◌,
}
use hwpp.Prelude.Int.{ℤ, pos, negsuc, diff, z_ltb}
use hwpp.Word.{bits_to_bytes, mask}
use hwpp.Drivers.{DriverError, io_error, args_error, as_uint, plus, is_outside}

pub record PciAddress : Type 0 where
  pub segment : ℕ
  pub bus : ℕ
  pub device : ℕ
  pub function : ℕ

pub record MemAddress : Type 0 where
  pub base : ℕ
  pub size : ℕ

-- `operator<` of PciAddress
unfoldable pub pci_less : PciAddress → PciAddress → Bool
pci_less left right =
    if not (eqb left.segment right.segment)
    then ltb left.segment right.segment
    else if not (eqb left.bus right.bus)
    then ltb left.bus right.bus
    else if not (eqb left.device right.device)
    then ltb left.device right.device
    else ltb left.function right.function

-- `PciAddress(s, b, d, f)`, of unsigned arguments.
unfoldable pub pci_address : ℕ → ℕ → ℕ → ℕ → PciAddress
pci_address s b d f = record {
  segment = s % 2 ^ 32;
  bus = b % 2 ^ 32;
  device = d % 2 ^ 32;
  function = f % 2 ^ 32;
}

-- `PciDriver::new_binding` behind the choice of the segment.
unfoldable pub pci_checked : ℤ → ℤ → ℤ → ℤ → Outcome DriverError PciAddress
unfolding as_uint pci_address
pci_checked seg bus dev func =
    if z_ltb seg (pos 0) || z_ltb (pos (2 ^ 32 - 1)) seg
    then throw args_error
    else if z_ltb bus (pos 0) || not (z_ltb bus (pos 256))
    then throw args_error
    else if z_ltb dev (pos 0) || not (z_ltb dev (pos 32))
    then throw args_error
    else if z_ltb func (pos 0) || not (z_ltb func (pos 8))
    then throw args_error
    else ok (pci_address (as_uint seg) (as_uint bus) (as_uint dev) (as_uint func))

unfoldable pub pci_new_binding : List ℤ → Outcome DriverError PciAddress
unfolding pci_checked
pci_new_binding (bus ∷ dev ∷ func ∷ []) = pci_checked (pos 0) bus dev func
pci_new_binding (seg ∷ bus ∷ dev ∷ func ∷ []) = pci_checked seg bus dev func
pci_new_binding _ = throw args_error

-- `MsrDriver::new_binding` and `CpuidDriver::new_binding`; the number of the CPU goes through an int.
unfoldable pub cpu_new_binding : List ℤ → Outcome DriverError ℕ
unfolding as_uint
cpu_new_binding (cpu ∷ []) =
    if z_ltb cpu (pos 0) then throw args_error else ok (as_uint cpu % 2 ^ 32)
cpu_new_binding _ = throw args_error

-- `MemDriver::new_binding`
unfoldable pub mem_new_binding : List ℤ → Outcome DriverError MemAddress
unfolding as_uint
mem_new_binding (base ∷ size ∷ []) =
    if z_ltb base (pos 0)
    then throw args_error
    else if z_ltb size (pos 0)
    then throw args_error
    else ok (record { base = as_uint base; size = as_uint size })
mem_new_binding _ = throw args_error

-- The sum of two values.
abbrev pub sum : ℤ → ℤ → ℤ
sum (pos a) z = plus z a
sum (negsuc a) (pos b) = diff b (a + 1)
sum (negsuc a) (negsuc b) = negsuc (a + b + 1)

-- `IoDriver::new_binding`; an IoAddress keeps 16 bits of each.
unfoldable pub io_new_binding : List ℤ → Outcome DriverError MemAddress
unfolding as_uint
io_new_binding (base ∷ size ∷ []) =
    if z_ltb base (pos 0) || not (z_ltb base (pos 65536))
    then throw args_error
    else if z_ltb size (pos 0) || z_ltb (pos 65536) (sum base size)
    then throw args_error
    else ok (record { base = as_uint base % 2 ^ 16; size = as_uint size % 2 ^ 16 })
io_new_binding _ = throw args_error

-- `check_width` of PciIo, MemIo and IoIo.
unfoldable pub check_width : ℕ → Outcome DriverError (Unit {0})
check_width width =
    if eqb width 8 || eqb width 16 || eqb width 32 || eqb width 64 then ok tt else throw io_error

-- `check_width` of MsrIo, and of CpuidIo.
unfoldable pub check_only : ℕ → ℕ → Outcome DriverError (Unit {0})
check_only supported width = if eqb width supported then ok tt else throw io_error

-- `check_bounds`, of a space of so many bytes.
unfoldable pub check_bounds : ℕ → ℤ → ℕ → Outcome DriverError (Unit {0})
unfolding is_outside
check_bounds limit offset bytes = if is_outside limit offset bytes then throw io_error else ok tt

-- What read and write of each kind check before they touch the device.
unfoldable pub pci_check : ℤ → ℕ → Outcome DriverError (Unit {0})
unfolding check_width check_bounds bits_to_bytes
pci_check address width = check_width width >> check_bounds 4096 address (bits_to_bytes width)

unfoldable pub msr_check : ℤ → ℕ → Outcome DriverError (Unit {0})
unfolding check_only check_bounds bits_to_bytes mask
msr_check address width =
    check_only 64 width >> check_bounds (mask 32) address (bits_to_bytes width)

-- The size of the binding is checked where memory is mapped.
unfoldable pub mem_check : ℤ → ℕ → Outcome DriverError (Unit {0})
unfolding check_width check_bounds bits_to_bytes mask
mem_check address width = check_width width >> check_bounds (mask 64) address (bits_to_bytes width)

unfoldable pub io_check : MemAddress → ℤ → ℕ → Outcome DriverError (Unit {0})
unfolding check_width check_bounds bits_to_bytes
io_check binding address width =
    check_width width >> check_bounds binding.size address (bits_to_bytes width)

-- CpuidIo compares the offset alone.
unfoldable pub cpuid_check : ℤ → ℕ → Outcome DriverError (Unit {0})
unfolding check_only check_bounds mask
cpuid_check address width = check_only 128 width >> check_bounds (mask 64) address 0
