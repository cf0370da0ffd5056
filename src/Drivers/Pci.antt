-- ===== src/Drivers/Pci.antt =====
-- drivers/pci/pci_driver.cc: the registered requests, and which callback a device is given to. `C` is
-- the type of callbacks, with `none` for NULL; `read` stands for the read of the configuration space of
-- a device, and the addresses that the system lists are an argument.
use hwpp.Prelude.{
  ℕ, ◌%◌, ◌^◌, ◌&&◌, Option, none, some, List, [], ◌∷◌, ◌++◌, eqb, if◌then◌else◌, Outcome, ok,
  throw, undefined, ◌>>=◌,
}
use hwpp.Prelude.Int.{ℤ, pos}
use hwpp.Drivers.{DriverError, args_error, as_uint}
use hwpp.Drivers.Bindings.{PciAddress}

-- `PciDriver::DiscoveryRequest`
pub record PciRequest (C : Type 0) : Type 0 where
  pub vendor : ℕ
  pub device : ℕ
  pub callback : Option C

pub record PciDriver (C : Type 0) : Type 0 where
  pub m_callbacks : List (PciRequest C)
  pub m_catchall : Option C

-- The calls that were made, in their order, with their arguments, and how it ended.
pub record Calls (C : Type 0) : Type 0 where
  pub made : List (C × List ℤ)
  pub ended : Outcome DriverError (Unit {0})

module _ {C : Type 0} where
  -- The driver object, a static, before anything is registered.
  unfoldable pub pci_driver : PciDriver C
  pci_driver = record { m_callbacks = []; m_catchall = none }

  unfoldable pub pci_register_discovery :
      List ℤ → Option C → PciDriver C → Outcome DriverError (PciDriver C)
  unfolding as_uint
  pci_register_discovery [] function driver = elim driver.m_catchall [
    | some old ↦ throw args_error
    | none ↦ ok (record driver { m_catchall = function })
  ]
  pci_register_discovery (vendor ∷ device ∷ []) function driver = ok (record driver {
    m_callbacks =
        driver.m_callbacks
        ++ record {
          vendor = as_uint vendor % 2 ^ 16;
          device = as_uint device % 2 ^ 16;
          callback = function;
        }
          ∷ [];
  })
  pci_register_discovery _ function driver = throw args_error

  -- The loop of find_discovery_request.
  unfoldable pub pci_find_request : ℕ → ℕ → List (PciRequest C) → Option (PciRequest C)
  pci_find_request vid did [] = none
  pci_find_request vid did (request ∷ requests) =
      if eqb request.vendor vid && eqb request.device did
      then some request
      else pci_find_request vid did requests

  -- A call in front of those that are made afterwards.
  abbrev pub call_first : C → List ℤ → Calls C → Calls C
  call_first f args calls = record calls { made = (f, args) ∷ calls.made }

  -- What is called for a device with a request, or without one.
  unfoldable pub pci_callback : PciDriver C → Option (PciRequest C) → Option C
  pci_callback driver (some request) = request.callback
  pci_callback driver none = driver.m_catchall

  module _ (read : PciAddress → ℤ → ℕ → Outcome DriverError ℤ) where
    unfoldable pub pci_find_discovery_request :
        PciDriver C → PciAddress → Outcome DriverError (Option (PciRequest C))
    unfolding pci_find_request as_uint
    pci_find_discovery_request driver addr = do
      vid ← read addr (pos 0) 16
      did ← read addr (pos 2) 16
      ok (pci_find_request (as_uint vid % 2 ^ 16) (as_uint did % 2 ^ 16) driver.m_callbacks)

    -- The loop of discover.
    unfoldable pub pci_discover : PciDriver C → List PciAddress → Calls C
    unfolding pci_find_discovery_request pci_callback
    pci_discover driver [] = record { made = []; ended = ok tt }
    pci_discover driver (addr ∷ addresses) =
        let rest = pci_discover driver addresses in
        elim (pci_find_discovery_request driver addr) [
          | throw e ↦ record { made = []; ended = throw e }
          | undefined ↦ record { made = []; ended = undefined }
          | ok found ↦ elim (pci_callback driver found) [
            | none ↦ rest
            | some f ↦
                call_first f
                  (pos addr.segment ∷ pos addr.bus ∷ pos addr.device ∷ pos addr.function ∷ []) rest
          ]
        ]
