-- ===== src/Drivers/Affinity.antt =====
-- CpuidIo::read on a system that runs the process on the CPUs that it asks for.
use hwpp.Prelude.{
  ℕ, ◌+◌, ◌-◌, ◌*◌, ◌/◌, ◌%◌, ◌^◌, ◌≤◌, ◌<◌, ◌≡◌, refl, ap, ◌∙◌, some, ◌++◌, append-nil, arith,
  length, drop, replicate, Bytes, bytes_eq, Outcome, ok, ◌>>=◌, >>=-ok,
}
use hwpp.Prelude.Int.{ℤ, pos}
use hwpp.Word.{mask}
use hwpp.Util.BitBuffer.{BitBuffer, raw_buffer, reset, memcpy, of_bitbuffer, load_bytes, byte_count}
use hwpp.Util.BitBuffer.Fill.{reset-replicate}
use hwpp.Util.BitBuffer.Number.{le_value, load_bytes-le_value}
use hwpp.Drivers.{DriverError, as_uint, is_outside}
use hwpp.Drivers.Bindings.{check_only, check_bounds, cpuid_check}
use hwpp.Drivers.PciIo.{from_buffer}
use hwpp.Drivers.Config.{take-all, drop-replicate}
use hwpp.Drivers.CpuidIo.{Processor, or_io_error, cpuid_read}

-- What Linux documents: sched_getaffinity gets the set of CPUs of the process, and sched_setaffinity
-- sets it to any set with a CPU that the process may use, as its own set has. The instruction leaves
-- four registers of four bytes.
pub record IsProcessor {S W : Type 0} (p : Processor S W) (affinity : W → S) (IsUsable : S → Type 0)
    : Type 0 where
  pub own : (w : W) → IsUsable (affinity w)
  pub got : (w : W) → p.sched_getaffinity w ≡ some (affinity w)
  pub set_to :
      (s : S) (w : W)
      → IsUsable s
      → (w' : W) × (p.sched_setaffinity s w ≡ some w') × (affinity w' ≡ s)
  pub registers : (function argument : ℕ) (w : W) → length (p.cpuid function argument w) ≡ 16

cpuid_check-allowed : (address : ℕ) → address < 2 ^ 64 → cpuid_check (pos address) 128 ≡ ok tt
unfolding cpuid_check check_only check_bounds is_outside mask
cpuid_check-allowed address h = ground (arith, h)

-- The parts of an address of 64 bits.
function_part : (address : ℕ) → as_uint (pos address) % 2 ^ 32 ≡ address % 2 ^ 32
unfolding as_uint
function_part address = omega arith

argument_part :
    (address : ℕ) → address < 2 ^ 64 → as_uint (pos address) / 2 ^ 32 % 2 ^ 32 ≡ address / 2 ^ 32
unfolding as_uint
argument_part address h = omega (arith, h)

-- A source that fills the buffer replaces it.
memcpy-whole : (n : ℕ) (regs : Bytes) → length regs ≡ n → memcpy n regs (replicate n 0) ≡ regs
unfolding memcpy
memcpy-whole n regs h =
    let nothing : n - n ≡ 0 = omega arith in
    ap (λ xs. xs ++ drop n (replicate n 0)) (take-all n regs h)
    ∙ ap (λ xs. regs ++ xs) (drop-replicate n n 0 ∙ ap (λ m. replicate m 0) nothing)
    ∙ append-nil regs

of_bitbuffer-whole :
    (n bits : ℕ) (regs : Bytes)
    → length regs ≡ n
    → n ≤ 2 ^ 31
    → of_bitbuffer (record { m_data = memcpy n regs (replicate n 0); m_bits = bits; m_bytes = n })
      ≡ ok (le_value regs)
unfolding of_bitbuffer
of_bitbuffer-whole n bits regs h short =
    ap (load_bytes n 0) (memcpy-whole n regs h)
    ∙ load_bytes-le_value n 0 regs (omega (arith, h)) (omega (arith, h, short))
    ∙ ap ok (ap (λ xs. 0 * 256 ^ n + le_value xs) (take-all n regs h) ∙ omega arith)

buffer-cleared :
    from_buffer (reset 128 0 raw_buffer)
    ≡ ok (record { m_data = replicate 16 0; m_bits = 128; m_bytes = 16 })
unfolding byte_count
buffer-cleared = ap from_buffer (reset-replicate 128 0 raw_buffer) ∙ refl

module _ {S W : Type 0} (p : Processor S W) (affinity : W → S) (IsUsable : S → Type 0)
    (processor : IsProcessor p affinity IsUsable) where
  -- A read of 128 bits at an address of 64 bits, for a CPU that the process may use, returns the four
  -- registers as one number, EAX lowest, that the instruction leaves in a state where the process is
  -- bound to that CPU, for the lower half of the address as the function and the upper half as its
  -- argument; afterwards the process has the CPUs that it had before.
  pub cpuid_read-affinity :
      (cpu address : ℕ) (w : W)
      → IsUsable (p.cpu_set cpu)
      → address < 2 ^ 64
      → (w1 w' : W) × (cpuid_read p cpu (pos address) 128 w
          ≡ ok (pos (le_value (p.cpuid (address % 2 ^ 32) (address / 2 ^ 32) w1)), w'))
        × (affinity w1 ≡ p.cpu_set cpu)
        × (affinity w' ≡ affinity w)
  unfolding cpuid_read
  cpuid_read-affinity cpu address w usable small =
      let (w1, moved, there) = processor.set_to (p.cpu_set cpu) w usable in
      let (w2, back, restored) = processor.set_to (affinity w) w1 (processor.own w) in
      let function = as_uint (pos address) % 2 ^ 32 in
      let argument = as_uint (pos address) / 2 ^ 32 % 2 ^ 32 in
      let regs = p.cpuid function argument w1 in
      let last : ℕ → Outcome DriverError (ℤ × W) = λ v. ok (pos v, w2) in
      let next : BitBuffer → Outcome DriverError (ℤ × W) = λ bb.
        from_buffer (of_bitbuffer (record bb { m_data = memcpy 16 regs bb.m_data })) >>= last in
      (
        w1,
        w2,
        >>=-ok (cpuid_check (pos address) 128) _ (cpuid_check-allowed address small)
            ∙ >>=-ok _ _ (ap or_io_error (processor.got w))
            ∙ >>=-ok _ _ (ap or_io_error moved)
            ∙ >>=-ok _ _ (ap or_io_error back)
            ∙ >>=-ok _ next buffer-cleared
            ∙ >>=-ok _ last (
                ap from_buffer (
                  of_bitbuffer-whole 16 128 regs (processor.registers function argument w1)
                    (omega arith)))
            ∙ ap (λ v. ok (pos (le_value v), w2))
                (ap (λ f. p.cpuid f argument w1) (function_part address)
                  ∙ ap (λ a. p.cpuid (address % 2 ^ 32) a w1) (argument_part address small)),
        there,
        restored,
      )
