-- ===== src/Drivers/Checks.antt =====
-- What the bindings let through, and which arguments make a binding.
use hwpp.Prelude.{
  ℕ, ◌+◌, ◌-◌, ◌/◌, ◌%◌, ◌^◌, ◌≤◌, ◌<◌, ◌≡◌, refl, sym, ap, ◌∙◌, ◌↔◌, ◌⊎◌, inl, inr, Bool, true,
  false, not, ◌||◌, List, [], ◌∷◌, arith, if◌then◌else◌, Outcome, ok, throw, ◌>>=◌, ◌>>◌, if-false,
  >>=-ok, if-cases, >>=-eq-ok, ok-inj,
}
use hwpp.Prelude.Int.{ℤ, pos, negsuc, z_ltb}
use hwpp.Word.{bits_to_bytes}
use hwpp.Drivers.{DriverError, io_error, args_error, as_uint, is_outside}
use hwpp.Drivers.Bindings.{
  PciAddress, pci_address, pci_checked, pci_new_binding, io_new_binding, check_width, check_bounds,
  pci_check, io_check,
}

-- The widths that PciIo, MemIo and IoIo access.
abbrev pub IsSupported : ℕ → Type 0
IsSupported width = (width ≡ 8) ⊎ (width ≡ 16) ⊎ (width ≡ 32) ⊎ (width ≡ 64)

check_width_iff : (width : ℕ) → (check_width width ≡ ok tt) ↔ IsSupported width
unfolding check_width
check_width_iff width = ground arith

is_outside_iff :
    (limit n bytes : ℕ) → (is_outside limit (pos n) bytes ≡ false) ↔ (n + bytes ≤ limit)
unfolding is_outside
is_outside_iff limit n bytes = ground arith

pub supported_bytes : (width : ℕ) → IsSupported width → (width + 7) % 2 ^ 32 / 8 ≡ width / 8
supported_bytes width s = ground (arith, s)

-- What an access that is let through has of a space of so many bytes.
pub check-inside :
    (limit : ℕ) (address : ℤ) (width : ℕ)
    → (check_width width >> check_bounds limit address (bits_to_bytes width)) ≡ ok tt
    → IsSupported width × (n : ℕ) × (address ≡ pos n) × (n + width / 8 ≤ limit)
unfolding check_bounds bits_to_bytes
check-inside limit address width = forward address
  where
    refused : ¬ (◌≡◌ {A = Outcome DriverError (Unit {0})} (throw io_error) (ok tt))
    refused e = cc

    forward :
        (address : ℤ)
        → (check_width width >> check_bounds limit address (bits_to_bytes width)) ≡ ok tt
        → IsSupported width × (n : ℕ) × (address ≡ pos n) × (n + width / 8 ≤ limit)
    forward (negsuc m) h =
        let (u, hw, hb) = >>=-eq-ok (check_width width) _ h in absurd (refused hb)
    forward (pos n) h =
        let (u, hw, hb) = >>=-eq-ok (check_width width) _ h in
        let s = (check_width_iff width).0 hw in
        elim (if-cases (is_outside limit (pos n) ((width + 7) % 2 ^ 32 / 8)) hb) [
          | inl (out, e) ↦ absurd (refused e)
          | inr (within, e) ↦
              let fits = (is_outside_iff limit n ((width + 7) % 2 ^ 32 / 8)).0 within in
              (s, n, refl, rw (← supported_bytes width s) fits)
        ]

-- An access to PCI configuration space is let through exactly if it is 8, 16, 32 or 64 bits wide and
-- its bytes lie in the 4096 bytes from offset 0.
pub pci_check_iff :
    (address : ℤ) (width : ℕ)
    → (pci_check address width ≡ ok tt)
      ↔ (IsSupported width × (n : ℕ) × (address ≡ pos n) × (n + width / 8 ≤ 4096))
unfolding pci_check check_bounds bits_to_bytes
pci_check_iff address width = (check-inside 4096 address width, backward)
  where
    backward :
        (IsSupported width × (n : ℕ) × (address ≡ pos n) × (n + width / 8 ≤ 4096))
        → pci_check address width ≡ ok tt
    backward (s, n, e, inside) =
        >>=-ok (check_width width) _ ((check_width_iff width).1 s)
        ∙ if-false (is_outside 4096 address ((width + 7) % 2 ^ 32 / 8)) _ _
            (rw (e, supported_bytes width s) ((is_outside_iff 4096 n (width / 8)).1 inside))

-- A value that a test of its range lets through.
ranged :
    (z : ℤ) (limit : ℕ)
    → (z_ltb z (pos 0) || not (z_ltb z (pos limit))) ≡ false
    → (n : ℕ) × (z ≡ pos n) × (n < limit)
ranged (pos n) limit h = (n, refl, ground (arith, h))
ranged (negsuc n) limit h = cc

ranged_up :
    (z : ℤ) (limit : ℕ)
    → (z_ltb z (pos 0) || z_ltb (pos limit) z) ≡ false
    → (n : ℕ) × (z ≡ pos n) × (n ≤ limit)
ranged_up (pos n) limit h = (n, refl, ground (arith, h))
ranged_up (negsuc n) limit h = cc

-- A guard that was passed.
guard :
    {A : Type 0} (test : Bool) (x : Outcome DriverError A) {a : A}
    → (if test then throw args_error else x) ≡ ok a
    → (test ≡ false) × (x ≡ ok a)
guard true x h = cc
guard false x h = (refl, h)

as_uint-small : (n limit : ℕ) → n < limit → limit ≤ 2 ^ 32 → as_uint (pos n) % 2 ^ 32 ≡ n
unfolding as_uint
as_uint-small n limit h k = omega arith

pci_checked-ranges :
    (seg bus dev func : ℤ) (addr : PciAddress)
    → pci_checked seg bus dev func ≡ ok addr
    → (addr.bus < 256)
      × (addr.device < 32)
      × (addr.function < 8)
      × (addr.segment < 2 ^ 32)
      × (seg ≡ pos addr.segment)
      × (bus ≡ pos addr.bus)
      × (dev ≡ pos addr.device)
      × (func ≡ pos addr.function)
unfolding pci_checked pci_address
pci_checked-ranges seg bus dev func addr h =
    let (seg_ok, h1) = guard (z_ltb seg (pos 0) || z_ltb (pos (2 ^ 32 - 1)) seg) _ h in
    let (bus_ok, h2) = guard (z_ltb bus (pos 0) || not (z_ltb bus (pos 256))) _ h1 in
    let (dev_ok, h3) = guard (z_ltb dev (pos 0) || not (z_ltb dev (pos 32))) _ h2 in
    let (func_ok, h4) = guard (z_ltb func (pos 0) || not (z_ltb func (pos 8))) _ h3 in
    let (s, es, ls) = ranged_up seg (2 ^ 32 - 1) seg_ok in
    let (b, eb, lb) = ranged bus 256 bus_ok in
    let (d, ed, ld) = ranged dev 32 dev_ok in
    let (f, ef, lf) = ranged func 8 func_ok in
    let made = ok-inj h4 in
    let ss : s ≡ addr.segment =
      sym (rw es (as_uint-small s (2 ^ 32) (omega (arith, ls)) (omega arith)))
      ∙ ap (λ a. a.segment) made in
    let bb : b ≡ addr.bus =
      sym (rw eb (as_uint-small b 256 lb (omega arith))) ∙ ap (λ a. a.bus) made in
    let dd : d ≡ addr.device =
      sym (rw ed (as_uint-small d 32 ld (omega arith))) ∙ ap (λ a. a.device) made in
    let ff : f ≡ addr.function =
      sym (rw ef (as_uint-small f 8 lf (omega arith))) ∙ ap (λ a. a.function) made in
    (
      omega (arith, bb, lb),
      omega (arith, dd, ld),
      omega (arith, ff, lf),
      omega (arith, ss, ls),
      es ∙ ap pos ss,
      eb ∙ ap pos bb,
      ed ∙ ap pos dd,
      ef ∙ ap pos ff,
    )

-- What `pci<>` is made of: three arguments, for segment 0, or four, each in its range and kept as it is.
pub pci_new_binding-ranges :
    (args : List ℤ) (addr : PciAddress)
    → pci_new_binding args ≡ ok addr
    → (addr.bus < 256)
      × (addr.device < 32)
      × (addr.function < 8)
      × (addr.segment < 2 ^ 32)
      × ((args ≡ pos addr.segment ∷ pos addr.bus ∷ pos addr.device ∷ pos addr.function ∷ [])
          ⊎ ((addr.segment ≡ 0) × (args ≡ pos addr.bus ∷ pos addr.device ∷ pos addr.function ∷ [])))
unfolding pci_new_binding
pci_new_binding-ranges [] addr h = cc
pci_new_binding-ranges (a ∷ []) addr h = cc
pci_new_binding-ranges (a ∷ b ∷ []) addr h = cc
pci_new_binding-ranges (bus ∷ dev ∷ func ∷ []) addr h =
    let (lb, ld, lf, ls, es, eb, ed, ef) = pci_checked-ranges (pos 0) bus dev func addr h in
    (lb, ld, lf, ls, inr (pos-inj (sym es), rw (eb, ed, ef) refl))
  where
    pos-inj : {a b : ℕ} → pos a ≡ pos b → a ≡ b
    pos-inj e = cc
pci_new_binding-ranges (seg ∷ bus ∷ dev ∷ func ∷ []) addr h =
    let (lb, ld, lf, ls, es, eb, ed, ef) = pci_checked-ranges seg bus dev func addr h in
    (lb, ld, lf, ls, inl (rw (es, eb, ed, ef) refl))
pci_new_binding-ranges (a ∷ b ∷ c ∷ d ∷ e ∷ rest) addr h = cc

-- `io<0, 0x10000>`, the whole space, is accepted, but its size does not fit the 16 bits of an
-- IoAddress: every access to it is refused.
pub io_check-whole_space :
    (address : ℤ) (width : ℕ)
    → (io_new_binding (pos 0 ∷ pos 65536 ∷ []) >>= λ binding. io_check binding address width)
      ≡ throw io_error
unfolding io_new_binding io_check check_width check_bounds bits_to_bytes is_outside as_uint
io_check-whole_space (pos n) width = ground (arith)
io_check-whole_space (negsuc n) width = ground (arith)
