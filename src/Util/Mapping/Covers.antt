-- ===== src/Util/Mapping/Covers.antt =====
-- Which bytes of a file a mapping holds.
use hwpp.Prelude.{
  ℕ, ◌+◌, ◌-◌, ◌*◌, ◌/◌, ◌%◌, ◌^◌, ◌≤◌, ◌<◌, bit_and, bit_xor, ◌≡◌, refl, sym, ap, ◌∙◌, subst, Bool,
  true, false, Option, none, some, arith, eqb, if◌then◌else◌, Outcome, ok, throw, ◌>>=◌, >>=-eq-ok,
  ok-inj,
}
use hwpp.Prelude.Bits.{bit_and-low_mask, cut, mod-pow-lt}
use hwpp.RegBits.Field.{xor_low_part}
use hwpp.Util.File.{File, FileError, errno_error, mode, checked}
use hwpp.Util.Mapping.{mmap, protection, MemoryMap, FileMapping, and_not, do_mmap}

and_not-pages : (x k : ℕ) → and_not x (2 ^ k - 1) ≡ x / 2 ^ k * 2 ^ k
and_not-pages x k = ap (bit_xor x) (bit_and-low_mask k x) ∙ xor_low_part x k

-- A mapping covers what was asked for: its pages start at or before the offset and end behind the last
-- byte, and its address is that of the offset.
pub record Covers (pgsize offset size : ℕ) (mapping : FileMapping) : Type 0 where
  pub aligned : (page : ℕ) × (mapping.m_real_offset ≡ page * pgsize)
  pub starts : mapping.m_real_offset ≤ offset
  pub ends : offset + size ≤ mapping.m_real_offset + mapping.m_real_length
  pub addressed : mapping.m_address + mapping.m_real_offset ≡ mapping.m_real_address + offset

-- What do_mmap makes of the address that the system returns.
abbrev mapped : ℕ → ℕ → ℕ → ℕ → ℕ → FileMapping
mapped pgsize offset size prot address = record {
  m_offset = offset;
  m_length = size;
  m_prot = prot;
  m_real_offset = and_not offset (pgsize - 1);
  m_real_length = (pgsize + and_not ((size + (pgsize - 1)) % 2 ^ 64) (pgsize - 1)) % 2 ^ 64;
  m_real_address = address;
  m_address = address + bit_and offset (pgsize - 1);
}

rounded :
    (p n size a b : ℕ)
    → p ≤ 2 ^ 32
    → size ≤ 2 ^ 32
    → n ≡ (size + (p - 1)) % 2 ^ 64
    → a + b ≡ n
    → b < p
    → (size ≤ a) × ((p + a) % 2 ^ 64 ≡ p + a)
rounded p n size a b page short e whole low = (omega arith, omega arith)

mapped-Covers :
    (k offset size prot address : ℕ)
    → 2 ^ k ≤ 2 ^ 32
    → size ≤ 2 ^ 32
    → Covers (2 ^ k) offset size (mapped (2 ^ k) offset size prot address)
mapped-Covers k offset size prot address page short = record {
  aligned = (offset / 2 ^ k, and_not-pages offset k);
  starts = before (and_not-pages offset k) (cut offset k);
  ends = behind;
  addressed = part;
}
  where
    before :
        {x : ℕ}
        → x ≡ offset / 2 ^ k * 2 ^ k
        → offset / 2 ^ k * 2 ^ k + offset % 2 ^ k ≡ offset
        → x ≤ offset
    before e whole = omega arith

    part : address + bit_and offset (2 ^ k - 1) + and_not offset (2 ^ k - 1) ≡ address + offset
    part = rw (and_not-pages offset k, bit_and-low_mask k offset) (omega (arith, cut offset k))

    behind :
        offset + size
        ≤ and_not offset (2 ^ k - 1)
          + (2 ^ k + and_not ((size + (2 ^ k - 1)) % 2 ^ 64) (2 ^ k - 1)) % 2 ^ 64
    behind =
        let n = (size + (2 ^ k - 1)) % 2 ^ 64 in
        let (long, no_wrap) =
          rounded (2 ^ k) n size (n / 2 ^ k * 2 ^ k) (n % 2 ^ k) page short refl (cut n k)
            (mod-pow-lt n k) in
        rw (and_not-pages offset k, and_not-pages n k, no_wrap)
          (omega (arith, long, cut offset k, mod-pow-lt offset k))

if-ok :
    {A : Type 0} (test : Bool) (a b : A)
    → ◌≡◌ {A = Outcome FileError A} (if test then throw errno_error else ok a) (ok b)
    → a ≡ b
if-ok true a b h = absurd (throw-ne-ok h)
  where
    throw-ne-ok : ¬ (◌≡◌ {A = Outcome FileError _} (throw errno_error) (ok b))
    throw-ne-ok e = cc
if-ok false a b h = ok-inj h

module _ {W : Type 0} (memory : MemoryMap W) where
  made :
      (offset size prot : ℕ) (r : Option ℕ × W) (w' : W) (mapping : FileMapping)
      → ◌>>=◌ {B = FileMapping × W} (checked r) (λ (address, w1).
        if eqb address 0
        then throw errno_error
        else ok (mapped memory.getpagesize offset size prot address, w1))
        ≡ ok (mapping, w')
      → (address : ℕ) × (mapped memory.getpagesize offset size prot address ≡ mapping)
  unfolding checked
  made offset size prot (none, w1) w' mapping h = cc
  made offset size prot (some address, w1) w' mapping h = (
    address,
    ap (λ (r : FileMapping × W). r.0)
        (if-ok (eqb address 0) (mapped memory.getpagesize offset size prot address, w1)
          (mapping, w') h),
  )

  -- Mapping a part of a file, with pages that are a power of 2 of at most 4 GB, and no more than 4 GB,
  -- gives whole pages that hold all of the part, and the address of its first byte.
  pub do_mmap-Covers :
      (k : ℕ) (f : File) (offset size prot flags : ℕ) (w w' : W) (mapping : FileMapping)
      → memory.getpagesize ≡ 2 ^ k
      → 2 ^ k ≤ 2 ^ 32
      → size ≤ 2 ^ 32
      → do_mmap memory f offset size prot flags w ≡ ok (mapping, w')
      → Covers (2 ^ k) offset size mapping
  unfolding do_mmap
  do_mmap-Covers k f offset size prot flags w w' mapping page few short h =
      let (address, e) =
        made offset size prot
          (memory.sys_mmap (mapped memory.getpagesize offset size prot 0).m_real_length prot flags
            f.m_fd (and_not offset (memory.getpagesize - 1)) w)
          w' mapping h in
      subst (Covers (2 ^ k) offset size) e (
        subst (λ p. Covers (2 ^ k) offset size (mapped p offset size prot address)) (sym page)
          (mapped-Covers k offset size prot address few short))

  pub mmap-Covers :
      (k : ℕ) (f : File) (offset size : ℕ) (w w' : W) (mapping : FileMapping)
      → memory.getpagesize ≡ 2 ^ k
      → 2 ^ k ≤ 2 ^ 32
      → size ≤ 2 ^ 32
      → mmap memory f offset size w ≡ ok (mapping, w')
      → Covers (2 ^ k) offset size mapping
  unfolding mmap
  mmap-Covers k f offset size w w' mapping page few short h =
      let (prot, chosen, h1) = >>=-eq-ok (protection (mode f)) _ h in
      do_mmap-Covers k f offset size prot 1 w w' mapping page few short h1
