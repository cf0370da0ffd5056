-- ===== src/Drivers/Cpu.antt =====
-- drivers/cpu/cpu_driver.cc: the registered requests, and which one a CPU matches. `cpuid` stands for
-- the instruction on a CPU, with the four registers as one value, EAX lowest.
use hwpp.Prelude.{
  ℕ, ◌+◌, ◌-◌, ◌*◌, ◌/◌, ◌%◌, ◌^◌, bit_and, bit_or, Bool, ◌&&◌, Option, none, some, List, [], ◌∷◌,
  ◌++◌, leb, eqb, if◌then◌else◌, Outcome, ok, throw, undefined, ◌>>=◌,
}
use hwpp.Prelude.Int.{ℤ, pos, negsuc}
use hwpp.Word.{mask}
use hwpp.Drivers.{DriverError, args_error, as_uint}
use hwpp.Drivers.Pci.{Calls, call_first}

-- `CpuDriver::DiscoveryRequest`
pub record CpuRequest (C : Type 0) : Type 0 where
  pub vendor : ℕ
  pub family_min : ℕ
  pub family_max : ℕ
  pub model_min : ℕ
  pub model_max : ℕ
  pub stepping_min : ℕ
  pub stepping_max : ℕ
  pub callback : Option C

pub record CpuDriver (C : Type 0) : Type 0 where
  pub m_callbacks : List (CpuRequest C)
  pub m_catchall : Option C

-- The locals vendor, family, model and stepping.
pub record CpuModel : Type 0 where
  pub vendor : ℕ
  pub family : ℕ
  pub model : ℕ
  pub stepping : ℕ

-- A value `& MASK(bits)`, as GMP does it for negative values: in two's complement.
unfoldable pub low_bits : ℕ → ℤ → ℕ
low_bits bits (pos n) = n % 2 ^ bits
low_bits bits (negsuc n) = 2 ^ bits - 1 - n % 2 ^ bits

-- "GenuineIntel" and "AuthenticAMD", the first character lowest.
abbrev pub intel : ℕ
intel = 33547032397428960692454450503

abbrev pub amd : ℕ
amd = 21138376743609660797026071873

-- The registers EBX, EDX and ECX of leaf 0.
unfoldable pub decode_vendor : ℕ → ℕ
unfolding mask
decode_vendor tmp =
    bit_or (bit_or (bit_and (tmp / 2 ^ 32) (mask 32)) (bit_and (tmp / 2 ^ 96) (mask 32) * 2 ^ 32))
      (bit_and (tmp / 2 ^ 64) (mask 32) * 2 ^ 64)

-- The family, the model and the stepping of leaf 1.
unfoldable pub with_extended : ℕ → CpuModel → CpuModel
with_extended tmp m = record m {
  family = m.family + bit_and tmp 267386880 / 2 ^ 20;
  model = bit_or m.model (bit_and tmp 983040 / 2 ^ 12);
}

unfoldable pub decode : ℕ → ℕ → CpuModel
unfolding with_extended
decode vendor tmp =
    let base : CpuModel = record {
      vendor = vendor;
      family = bit_and tmp 3840 / 2 ^ 8;
      model = bit_and tmp 240 / 2 ^ 4;
      stepping = bit_and tmp 15;
    } in
    if eqb vendor intel
    then with_extended tmp base
    else if eqb vendor amd
    then (if eqb base.family 15 then with_extended tmp base else base)
    else base

module _ {C : Type 0} where
  unfoldable pub cpu_driver : CpuDriver C
  cpu_driver = record { m_callbacks = []; m_catchall = none }

  unfoldable pub cpu_register_discovery :
      List ℤ → Option C → CpuDriver C → Outcome DriverError (CpuDriver C)
  unfolding as_uint low_bits
  cpu_register_discovery [] function driver = elim driver.m_catchall [
    | some old ↦ throw args_error
    | none ↦ ok (record driver { m_catchall = function })
  ]
  cpu_register_discovery (v ∷ f ∷ g ∷ m ∷ n ∷ s ∷ t ∷ []) function driver = ok (record driver {
    m_callbacks =
        driver.m_callbacks
        ++ record {
          vendor = low_bits 96 v;
          family_min = as_uint f % 2 ^ 16;
          family_max = as_uint g % 2 ^ 16;
          model_min = as_uint m % 2 ^ 16;
          model_max = as_uint n % 2 ^ 16;
          stepping_min = as_uint s % 2 ^ 16;
          stepping_max = as_uint t % 2 ^ 16;
          callback = function;
        }
          ∷ [];
  })
  cpu_register_discovery _ function driver = throw args_error

  -- The test of the loop of find_discovery_request.
  unfoldable pub cpu_matches : CpuModel → CpuRequest C → Bool
  cpu_matches cpu r =
      eqb cpu.vendor r.vendor
      && (leb r.family_min cpu.family && leb cpu.family r.family_max)
      && (leb r.model_min cpu.model && leb cpu.model r.model_max)
      && (leb r.stepping_min cpu.stepping && leb cpu.stepping r.stepping_max)

  unfoldable pub cpu_find_request : CpuModel → List (CpuRequest C) → Option (CpuRequest C)
  unfolding cpu_matches
  cpu_find_request cpu [] = none
  cpu_find_request cpu (request ∷ requests) =
      if cpu_matches cpu request then some request else cpu_find_request cpu requests

  -- What is called for a CPU with a request, or without one.
  unfoldable pub cpu_callback : CpuDriver C → Option (CpuRequest C) → Option C
  cpu_callback driver (some request) = request.callback
  cpu_callback driver none = driver.m_catchall

  module _ (cpuid : ℕ → ℕ → Outcome DriverError ℕ) where
    unfoldable pub cpu_find_discovery_request :
        CpuDriver C → ℕ → Outcome DriverError (Option (CpuRequest C))
    unfolding cpu_find_request decode decode_vendor
    cpu_find_discovery_request driver addr = do
      leaf0 ← cpuid addr 0
      leaf1 ← cpuid addr 1
      ok (cpu_find_request (decode (decode_vendor leaf0) leaf1) driver.m_callbacks)

    -- The loop of discover.
    unfoldable pub cpu_discover : CpuDriver C → List ℕ → Calls C
    unfolding cpu_find_discovery_request cpu_callback
    cpu_discover driver [] = record { made = []; ended = ok tt }
    cpu_discover driver (addr ∷ addresses) =
        let rest = cpu_discover driver addresses in
        elim (cpu_find_discovery_request driver addr) [
          | throw e ↦ record { made = []; ended = throw e }
          | undefined ↦ record { made = []; ended = undefined }
          | ok found ↦ elim (cpu_callback driver found) [
            | none ↦ rest
            | some f ↦ call_first f (pos addr ∷ []) rest
          ]
        ]
