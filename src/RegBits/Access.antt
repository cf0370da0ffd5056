-- ===== src/RegBits/Access.antt =====
-- What one range of a register reads and writes, as `init` builds it.
use hwpp.Prelude.{
  ℕ, zero, suc, ◌+◌, ◌-◌, ◌*◌, ◌/◌, ◌%◌, ◌^◌, ◌≤◌, ◌<◌, ◌≡◌, sym, ap, ◌∙◌, ◌⊎◌, inl, inr, some,
  arith, ok, throw,
}
use native.Mathlib.Decide.{dec_lt}
use native.Mathlib.Nat.{pow-suc, one-le-pow}
use hwpp.Word.{mask}
use hwpp.Prelude.Bits.{bit_and-low_mask, mod-pow-lt}
use hwpp.RegBits.{
  Register, RegBits, simple, bad_bitrange, register_too_narrow, init, width, read, write,
}
use hwpp.RegBits.Field.{
  get_bits, put_bits, write-put_bits, get_bits-put_bits, get_bits-put_bits_apart, put_bits-lt,
}

-- What GMP documents of `mpz_popcount`: it counts the bits that are set.
pub record IsPopcount (popcount : ℕ → ℕ) : Type 0 where
  pub none_set : popcount 0 ≡ 0
  pub lowest : (n : ℕ) → popcount n ≡ popcount (n / 2) + n % 2

pub popcount-mask : (popcount : ℕ → ℕ) → IsPopcount popcount → (k : ℕ) → popcount (mask k) ≡ k
unfolding mask
popcount-mask popcount p zero = p.none_set
popcount-mask popcount p (suc k) = omega (
  arith,
  p.lowest (1 * 2 ^ suc k - 1),
  ap popcount half,
  popcount-mask popcount p k,
  pow-suc 2 k,
  one-le-pow k 2,
)
  where
    half : (1 * 2 ^ suc k - 1) / 2 ≡ 1 * 2 ^ k - 1
    half = omega (arith, pow-suc 2 k, one-le-pow k 2)

-- A register that holds a number of its width and gives back what was written, as memory does.
pub record IsCell {S : Type 0} (reg : Register S) : Type 0 where
  pub holds : (s : S) → reg.read s < 2 ^ reg.width
  pub gives_back : (v : ℕ) (s : S) → v < 2 ^ reg.width → reg.read (reg.write v s) ≡ v

mask-eq : (k : ℕ) → mask k ≡ 2 ^ k - 1
unfolding mask
mask-eq k = omega arith

-- What `init` makes of its arguments: the two refusals of a register that is there, and otherwise
-- the range with the mask of its width.
pub init-cases :
    {S : Type 0} (reg : Register S) (hi lo : ℕ)
    → ((hi < lo) × (init (some reg) hi lo ≡ throw bad_bitrange))
      ⊎ ((lo ≤ hi) × (reg.width ≤ hi) × (init (some reg) hi lo ≡ throw register_too_narrow))
      ⊎ ((lo ≤ hi)
          × (hi < reg.width)
          × (init (some reg) hi lo ≡ ok (simple reg lo hi (mask (hi - lo + 1)))))
unfolding init
init-cases reg hi lo = elim (dec_lt hi lo) [
  | yes bad ↦ inl (bad, ground arith)
  | no good ↦ elim (dec_lt hi reg.width) [
    | yes fits ↦ inr (inr (omega arith, fits, ground arith))
    | no narrow ↦ inr (inl (omega arith, omega arith, ground arith))
  ]
]

pub init-eq-ok :
    {S : Type 0} (reg : Register S) (hi lo : ℕ) (rb : RegBits S)
    → init (some reg) hi lo ≡ ok rb
    → (lo ≤ hi) × (hi < reg.width) × (rb ≡ simple reg lo hi (2 ^ (hi - lo + 1) - 1))
init-eq-ok reg hi lo rb h = elim (init-cases reg hi lo) [
  | inl (_, refused) ↦ cc
  | inr (inl (_, _, refused)) ↦ cc
  | inr (inr (ordered, fits, made)) ↦ (ordered, fits, ground (arith, made, mask-eq (hi - lo + 1)))
]

module _ {S : Type 0} (popcount : ℕ → ℕ) (counts : IsPopcount popcount) (reg : Register S) where
  -- A RegBits that `init` returned is as wide as its range, and reads the bits of the range.
  pub init-read :
      (hi lo : ℕ) (rb : RegBits S)
      → init (some reg) hi lo ≡ ok rb
      → (s : S)
      → (width popcount rb ≡ hi - lo + 1)
        × (read popcount rb s ≡ get_bits (reg.read s) lo (hi - lo + 1))
  unfolding width read
  init-read hi lo rb h s =
      let (ordered, fits, made) = init-eq-ok reg hi lo rb h in
      rw made (
        ap popcount (sym (mask-eq (hi - lo + 1))) ∙ popcount-mask popcount counts (hi - lo + 1),
        bit_and-low_mask (hi - lo + 1) (reg.read s / 2 ^ lo),
      )

  pub init-write :
      (hi lo : ℕ) (rb : RegBits S)
      → init (some reg) hi lo ≡ ok rb
      → (v : ℕ) (s : S)
      → write popcount rb v s ≡ reg.write (put_bits (reg.read s) lo (hi - lo + 1) v) s
  unfolding write
  init-write hi lo rb h v s =
      let (ordered, fits, made) = init-eq-ok reg hi lo rb h in
      rw made (ap (λ (t : ℕ). reg.write t s) (write-put_bits (reg.read s) lo (hi - lo + 1) v))

  pub init-lt :
      (hi lo : ℕ) (rb : RegBits S)
      → init (some reg) hi lo ≡ ok rb
      → (s : S) → read popcount rb s < 2 ^ width popcount rb
  init-lt hi lo rb h s =
      let (wide, reads) = init-read hi lo rb h s in
      rw (wide, reads) (mod-pow-lt (reg.read s / 2 ^ lo) (hi - lo + 1))

  stored :
      IsCell reg
      → (hi lo : ℕ) (rb : RegBits S) → init (some reg) hi lo ≡ ok rb
      → (v : ℕ) (s : S)
      → reg.read (write popcount rb v s) ≡ put_bits (reg.read s) lo (hi - lo + 1) v
  stored cell hi lo rb h v s =
      let (ordered, fits, made) = init-eq-ok reg hi lo rb h in
      rw (init-write hi lo rb h v s) (
        cell.gives_back _ s (
          put_bits-lt (reg.read s) lo (hi - lo + 1) v reg.width (omega (arith, ordered, fits))
            (cell.holds s)))

  -- On a register that works as memory, a range that `init` accepts reads back what was written to
  -- it, cut to the width of the range.
  pub read-write :
      IsCell reg
      → (hi lo : ℕ) (rb : RegBits S) → init (some reg) hi lo ≡ ok rb
      → (v : ℕ) (s : S) → read popcount rb (write popcount rb v s) ≡ v % 2 ^ width popcount rb
  read-write cell hi lo rb h v s =
      let (wide, reads) = init-read hi lo rb h (write popcount rb v s) in
      rw (wide, reads, stored cell hi lo rb h v s)
        (get_bits-put_bits (reg.read s) lo (hi - lo + 1) v)

  -- On a register that works as memory, a write to one range leaves what a range without common
  -- bits reads.
  pub read-write_apart :
      IsCell reg
      → (hi lo hi' lo' : ℕ) (rb rb' : RegBits S) → init (some reg) hi lo ≡ ok rb
      → init (some reg) hi' lo' ≡ ok rb'
      → (hi < lo') ⊎ (hi' < lo)
      → (v : ℕ) (s : S) → read popcount rb' (write popcount rb v s) ≡ read popcount rb' s
  read-write_apart cell hi lo hi' lo' rb rb' h h' apart v s =
      let (_, after) = init-read hi' lo' rb' h' (write popcount rb v s) in
      let (_, before) = init-read hi' lo' rb' h' s in
      let (ordered, _, _) = init-eq-ok reg hi lo rb h in
      let (ordered', _, _) = init-eq-ok reg hi' lo' rb' h' in
      rw (after, before, stored cell hi lo rb h v s)
        (get_bits-put_bits_apart (reg.read s) lo (hi - lo + 1) v lo' (hi' - lo' + 1)
          (elim apart [ inl low ↦ inl (omega arith) | inr high ↦ inr (omega arith) ]))
