-- ===== src/Drivers/Discovery.antt =====
-- Which request a device finds, and which driver a name finds.
use hwpp.Prelude.{
  ℕ, ◌%◌, ◌^◌, ◌≡◌, refl, ◌∙◌, ◌⊎◌, inl, inr, true, false, ◌&&◌, Option, none, some, List, [], ◌∷◌,
  ◌++◌, eqb, if◌then◌else◌, Bool-cases, Option-cases, ◌==◌, ==_iff, Bytes, bytes_eq, Outcome, ok,
  throw,
}
use hwpp.Prelude.Int.{ℤ}
use hwpp.Util.StdMap
use hwpp.Util.StdMap.{find-insert}
use hwpp.Drivers.{as_uint}
use hwpp.Drivers.Pci.{PciRequest, PciDriver, pci_find_request, pci_register_discovery}
use hwpp.Drivers.Registry.{register_driver, FindError, find_driver, out_of_range}

-- The first of two searches that finds something.
abbrev pub or_else : {A : Type 0} → Option A → Option A → Option A
or_else none b = b
or_else (some a) b = some a

module _ {C : Type 0} where
  pci_find_request-append :
      (vid did : ℕ) (xs ys : List (PciRequest C))
      → pci_find_request vid did (xs ++ ys)
        ≡ or_else (pci_find_request vid did xs) (pci_find_request vid did ys)
  unfolding pci_find_request
  pci_find_request-append vid did [] ys = refl
  pci_find_request-append vid did (x ∷ xs) ys =
      elim (Bool-cases (eqb x.vendor vid && eqb x.device did)) [
        | inl same ↦ rw same refl
        | inr apart ↦ rw apart (pci_find_request-append vid did xs ys)
      ]

  -- A request that is registered for a vendor and a device is found by that device, unless one that was
  -- registered before is; every other device finds what it found before, and the callback for all other
  -- devices stays.
  pci_register_discovery-find :
      (vendor device : ℤ) (function : Option C) (driver : PciDriver C)
      → (driver' : PciDriver C) × (pci_register_discovery (vendor ∷ device ∷ []) function driver
          ≡ ok driver')
        × (driver'.m_catchall ≡ driver.m_catchall)
        × ((vid did : ℕ)
            → pci_find_request vid did driver'.m_callbacks
              ≡ or_else (pci_find_request vid did driver.m_callbacks) (
                  if eqb (as_uint vendor % 2 ^ 16) vid && eqb (as_uint device % 2 ^ 16) did
                  then some (record {
                    vendor = as_uint vendor % 2 ^ 16;
                    device = as_uint device % 2 ^ 16;
                    callback = function;
                  })
                  else none))
  unfolding pci_register_discovery pci_find_request
  pci_register_discovery-find vendor device function driver =
      (_, refl, refl, (λ vid did. pci_find_request-append vid did driver.m_callbacks _))

module _ {D : Type 0} where
  -- A driver that was found, or else another result.
  abbrev pub found_or : Option D → Outcome FindError D → Outcome FindError D
  found_or none x = x
  found_or (some driver) x = ok driver

  find_driver-found_or :
      (name : Bytes) (drivers : List (Bytes × D))
      → find_driver name drivers ≡ found_or (StdMap.find name drivers) (throw out_of_range)
  unfolding find_driver
  find_driver-found_or name drivers = go (StdMap.find name drivers)
    where
      go :
          (o : Option D)
          → elim o as (λ _. Outcome FindError D) [
            | none ↦ throw out_of_range
            | some driver ↦ ok driver
          ]
            ≡ found_or o (throw out_of_range)
      go none = refl
      go (some driver) = refl

  register_driver-known :
      (name : Bytes) (driver first : D) (drivers : List (Bytes × D))
      → StdMap.find name drivers ≡ some first
      → register_driver name driver drivers ≡ drivers
  unfolding register_driver
  register_driver-known name driver first drivers h = rw (h, register_driver) refl

  register_driver-new :
      (name : Bytes) (driver : D) (drivers : List (Bytes × D))
      → StdMap.find name drivers ≡ none
      → register_driver name driver drivers ≡ StdMap.insert name driver drivers
  unfolding register_driver
  register_driver-new name driver drivers h = rw (h, register_driver) refl

  -- The driver that is registered first under a name is the one that the name finds; registering a
  -- driver changes nothing for the other names.
  find_driver-register_driver :
      (name other : Bytes) (driver : D) (drivers : List (Bytes × D))
      → find_driver other (register_driver name driver drivers)
        ≡ found_or
            (StdMap.find other drivers)
            (if name == other then ok driver else throw out_of_range)
  find_driver-register_driver name other driver drivers =
      elim (Option-cases (StdMap.find name drivers)) [
        | inr (first, known) ↦
            rw (register_driver-known name driver first drivers known)
              (find_driver-found_or other drivers ∙ stays first known (Bool-cases (name == other)))
        | inl new ↦ rw (register_driver-new name driver drivers new) (
            find_driver-found_or other (StdMap.insert name driver drivers)
            ∙ rw (find-insert name other driver drivers) (added new (Bool-cases (name == other))))
      ]
    where
      stays :
          (first : D)
          → StdMap.find name drivers ≡ some first
          → ((name == other) ≡ true) ⊎ ((name == other) ≡ false)
          → found_or (StdMap.find other drivers) (throw out_of_range)
            ≡ found_or
                (StdMap.find other drivers)
                (if name == other then ok driver else throw out_of_range)
      stays first known (inl same) = rw (← (==_iff name other).0 same) (rw known refl)
      stays first known (inr apart) = rw apart refl

      added :
          StdMap.find name drivers ≡ none
          → ((name == other) ≡ true) ⊎ ((name == other) ≡ false)
          → found_or
              (if name == other then some driver else StdMap.find other drivers)
              (throw out_of_range)
            ≡ found_or
                (StdMap.find other drivers)
                (if name == other then ok driver else throw out_of_range)
      added new (inl same) = rw same (rw (← (==_iff name other).0 same) (rw new refl))
      added new (inr apart) = rw apart refl
