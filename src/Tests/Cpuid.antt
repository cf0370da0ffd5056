-- ===== src/Tests/Cpuid.antt =====
-- Reading CPUID where a process has the CPUs 0 and 1.
use hwpp.Prelude.{ℕ, ◌/◌, ◌%◌, ◌^◌, ◌≡◌, refl, arith, some, List, [], ◌∷◌, length, ok, throw}
use hwpp.Prelude.Int.{pos}
use hwpp.Util.BitBuffer.Number.{le_value}
use hwpp.Drivers.{io_error}
use hwpp.Drivers.CpuidIo.{Processor, cpuid_read}
use hwpp.Drivers.Affinity.{IsProcessor, cpuid_read-affinity}

-- A processor that leaves the function in EAX and the number of CPUs of the process in EBX.
abbrev processor : Processor (List ℕ) (List ℕ)
processor = record {
  sched_getaffinity = λ w. some w;
  sched_setaffinity = λ s w. some s;
  cpu_set = λ cpu. cpu ∷ [];
  cpuid = λ function argument w.
      function % 256 ∷ 0 ∷ 0 ∷ 0 ∷ length w ∷ 0 ∷ 0 ∷ 0 ∷ 0 ∷ 0 ∷ 0 ∷ 0 ∷ 0 ∷ 0 ∷ 0 ∷ 0 ∷ [];
}

processor-IsProcessor : IsProcessor processor (λ w. w) (λ s. Unit {0})
processor-IsProcessor = record {
  own = λ w. tt;
  got = λ w. refl;
  set_to = λ s w usable. (s, refl, refl);
  registers = λ function argument w. refl;
}

cpuid_read-affinity_example :
    (w1 w' : List ℕ) × (cpuid_read processor 1 (pos 4) 128 (0 ∷ 1 ∷ [])
      ≡ ok (pos (le_value (processor.cpuid (4 % 2 ^ 32) (4 / 2 ^ 32) w1)), w'))
    × (w1 ≡ 1 ∷ [])
    × (w' ≡ 0 ∷ 1 ∷ [])
cpuid_read-affinity_example =
    cpuid_read-affinity processor (λ w. w) (λ s. Unit {0}) processor-IsProcessor 1 4 (0 ∷ 1 ∷ []) tt
      (omega arith)

-- The process is back on both CPUs; the instruction has run on one.
cpuid_read-one_cpu :
    cpuid_read processor 1 (pos 4) 128 (0 ∷ 1 ∷ []) ≡ ok (pos 4294967300, 0 ∷ 1 ∷ [])
unfolding cpuid_read
cpuid_read-one_cpu = refl

-- Other widths than 128 bits are refused.
cpuid_read-narrow : cpuid_read processor 1 (pos 4) 32 (0 ∷ 1 ∷ []) ≡ throw io_error
unfolding cpuid_read
cpuid_read-narrow = refl
