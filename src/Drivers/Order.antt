-- ===== src/Drivers/Order.antt =====
-- The order of PCI addresses, by which an enumeration is sorted.
use hwpp.Prelude.{◌≡◌, true, false, arith}
use hwpp.Drivers.Bindings.{PciAddress, pci_less}

pci_less_irrefl : (a : PciAddress) → pci_less a a ≡ false
unfolding pci_less
pci_less_irrefl a = ground arith

pci_less_trans :
    (a b c : PciAddress) → pci_less a b ≡ true → pci_less b c ≡ true → pci_less a c ≡ true
unfolding pci_less
pci_less_trans a b c h k = ground (arith, h, k)

-- The four fields of an address are the same.
abbrev pub IsSame : PciAddress → PciAddress → Type 0
IsSame a b =
    (a.segment ≡ b.segment) × (a.bus ≡ b.bus) × (a.device ≡ b.device) × (a.function ≡ b.function)

pci_less_total : (a b : PciAddress) → pci_less a b ≡ false → pci_less b a ≡ false → IsSame a b
unfolding pci_less
pci_less_total a b h k = ground (arith, h, k)

-- The order of addresses is a strict total order, as std::sort needs it: nothing is below itself, the
-- order is transitive, and of two addresses of which neither is below the other all fields agree.
pci_less-IsStrictOrder :
    ((a : PciAddress) → pci_less a a ≡ false)
    × ((a b c : PciAddress) → pci_less a b ≡ true → pci_less b c ≡ true → pci_less a c ≡ true)
    × ((a b : PciAddress) → pci_less a b ≡ false → pci_less b a ≡ false → IsSame a b)
pci_less-IsStrictOrder = (pci_less_irrefl, pci_less_trans, pci_less_total)
