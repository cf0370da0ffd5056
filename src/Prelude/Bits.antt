-- ===== src/Prelude/Bits.antt =====
-- `&`, `|` and `^` of two numbers that are cut at the same bit go part by part.
use Prim.Native.Nat.{
  ℕ, zero, suc, ◌+◌, ◌-◌, ◌*◌, ◌/◌, ◌%◌, ◌^◌, ◌≤◌, ◌<◌, min, max, digits, bit_and, bit_or, bit_xor,
  differ, bit_and-bitwise, bit_or-bitwise, bit_xor-bitwise,
}
use mathlib.Core.Path.{◌≡◌, refl, sym, ap, ap₂, ◌∙◌}
use native.Mathlib.Nat.{pow-suc, one-le-pow}
use native.Mathlib.Omega.{arith}

-- One law serves the three operations: `z` is what is left of the second number when the first
-- has run out, `f` the operation on two digits.
module _ (z : ℕ → ℕ) (f : ℕ → ℕ → ℕ) where
  abbrev on_digits : ℕ → ℕ → ℕ
  on_digits a b = digits z f a a b

  enough_digits : (m n a b : ℕ) → a ≤ m → a ≤ n → digits z f m a b ≡ digits z f n a b
  enough_digits zero zero a b hm hn = refl
  enough_digits zero (suc n) zero b hm hn = refl
  enough_digits zero (suc n) (suc a) b hm hn = absurd (omega arith)
  enough_digits (suc m) zero zero b hm hn = refl
  enough_digits (suc m) zero (suc a) b hm hn = absurd (omega arith)
  enough_digits (suc m) (suc n) zero b hm hn = refl
  enough_digits (suc m) (suc n) (suc a) b hm hn =
      ap (λ (rest : ℕ). rest * 2 + f (suc a % 2) (b % 2))
        (enough_digits m n (suc a / 2) (b / 2) (omega arith) (omega arith))

  lowest_digit :
      ((b : ℕ) → z b ≡ z (b / 2) * 2 + f 0 (b % 2))
      → (a b : ℕ) → on_digits a b ≡ on_digits (a / 2) (b / 2) * 2 + f (a % 2) (b % 2)
  lowest_digit run_out zero b = run_out b
  lowest_digit run_out (suc a) b =
      ap (λ (rest : ℕ). rest * 2 + f (suc a % 2) (b % 2))
        (enough_digits a (suc a / 2) (suc a / 2) (b / 2) (omega arith) (omega arith))

-- An operation that goes digit by digit.
pub record IsBitwise (op f : ℕ → ℕ → ℕ) : Type 0 where
  pub none_set : op 0 0 ≡ 0
  pub lowest : (a b : ℕ) → op a b ≡ op (a / 2) (b / 2) * 2 + f (a % 2) (b % 2)

digits-IsBitwise :
    (op : ℕ → ℕ → ℕ) (z : ℕ → ℕ) (f : ℕ → ℕ → ℕ)
    → ((a b : ℕ) → op a b ≡ digits z f a a b)
    → z 0 ≡ 0
    → ((b : ℕ) → z b ≡ z (b / 2) * 2 + f 0 (b % 2))
    → IsBitwise op f
digits-IsBitwise op z f same nil run_out = record {
  none_set = same 0 0 ∙ nil;
  lowest = λ a b.
      same a b
      ∙ lowest_digit z f run_out a b
      ∙ ap (λ (rest : ℕ). rest * 2 + f (a % 2) (b % 2)) (sym (same (a / 2) (b / 2)));
}

pub bit_and-IsBitwise : IsBitwise bit_and min
bit_and-IsBitwise =
    digits-IsBitwise bit_and (λ b. 0) min (λ a b. bit_and-bitwise a b) refl (λ b. omega arith)

pub bit_or-IsBitwise : IsBitwise bit_or max
bit_or-IsBitwise =
    digits-IsBitwise bit_or (λ b. b) max (λ a b. bit_or-bitwise a b) refl (λ b. omega arith)

differ_run_out : (b : ℕ) → b ≡ b / 2 * 2 + differ 0 (b % 2)
differ_run_out b = omega arith

pub bit_xor-IsBitwise : IsBitwise bit_xor differ
bit_xor-IsBitwise =
    digits-IsBitwise bit_xor (λ b. b) differ (λ a b. bit_xor-bitwise a b) refl differ_run_out

double : (q k : ℕ) → q * 2 ^ suc k ≡ 2 * (q * 2 ^ k)
double q k = omega (arith, ap (λ (t : ℕ). q * t) (pow-suc 2 k))

module _ (op f : ℕ → ℕ → ℕ) (bits : IsBitwise op f) where
  -- The high parts and the low parts are combined on their own.
  pub op_parts :
      (k q q' r r' : ℕ)
      → r < 2 ^ k
      → r' < 2 ^ k
      → op (q * 2 ^ k + r) (q' * 2 ^ k + r') ≡ op q q' * 2 ^ k + op r r'
  op_parts zero q q' r r' h h' = omega (
    arith,
    halves (q * 2 ^ 0 + r) (q' * 2 ^ 0 + r') q q' (omega arith) (omega arith),
    halves r r' 0 0 (omega arith) (omega arith),
    bits.none_set,
  )
    where
      halves : (a b a' b' : ℕ) → a ≡ a' → b ≡ b' → op a b ≡ op a' b'
      halves a b a' b' = ap₂ op
  op_parts (suc k) q q' r r' h h' = omega (
    arith,
    bits.lowest (q * 2 ^ suc k + r) (q' * 2 ^ suc k + r'),
    ap₂ op (half q r) (half q' r'),
    ap₂ f (low q r) (low q' r'),
    op_parts k q q' (r / 2) (r' / 2) (omega (arith, pow-suc 2 k)) (omega (arith, pow-suc 2 k)),
    bits.lowest r r',
    double (op q q') k,
  )
    where
      half : (q r : ℕ) → (q * 2 ^ suc k + r) / 2 ≡ q * 2 ^ k + r / 2
      half q r = omega (arith, double q k)

      low : (q r : ℕ) → (q * 2 ^ suc k + r) % 2 ≡ r % 2
      low q r = omega (arith, double q k)

-- Strong induction on the binary digits of a number.
by_digits : (P : ℕ → Type 0) → P 0 → ((a : ℕ) → P (a / 2) → P a) → (a : ℕ) → P a
by_digits P base step a = below a a (omega arith)
  where
    below : (n a : ℕ) → a ≤ n → P a
    below n zero h = base
    below zero (suc a) h = absurd (omega arith)
    below (suc n) (suc a) h = step (suc a) (below n (suc a / 2) (omega arith))

pub bit_and-zero : (a : ℕ) → bit_and a 0 ≡ 0
bit_and-zero =
    by_digits (λ a. bit_and a 0 ≡ 0) refl λ a ih. omega (arith, bit_and-IsBitwise.lowest a 0, ih)

pub bit_or-zero : (a : ℕ) → bit_or a 0 ≡ a
bit_or-zero =
    by_digits (λ a. bit_or a 0 ≡ a) refl λ a ih. omega (arith, bit_or-IsBitwise.lowest a 0, ih)

pub zero-bit_or : (a : ℕ) → bit_or 0 a ≡ a
zero-bit_or =
    by_digits (λ a. bit_or 0 a ≡ a) refl λ a ih. omega (arith, bit_or-IsBitwise.lowest 0 a, ih)

differ-zero : (x : ℕ) → differ x 0 ≡ x
differ-zero zero = refl
differ-zero (suc x) = refl

differ_self : (x : ℕ) → differ x x ≡ 0
differ_self zero = refl
differ_self (suc x) = differ_self x

pub bit_xor-zero : (a : ℕ) → bit_xor a 0 ≡ a
bit_xor-zero =
    by_digits (λ a. bit_xor a 0 ≡ a) refl
      λ a ih. omega (arith, bit_xor-IsBitwise.lowest a 0, differ-zero (a % 2), ih)

pub bit_xor_self : (a : ℕ) → bit_xor a a ≡ 0
bit_xor_self =
    by_digits (λ a. bit_xor a a ≡ 0) refl
      λ a ih. omega (arith, bit_xor-IsBitwise.lowest a a, differ_self (a % 2), ih)

-- The mask of the `k` lowest bits keeps a number that fits in them.
pub bit_and-mask : (k r : ℕ) → r < 2 ^ k → bit_and r (2 ^ k - 1) ≡ r
bit_and-mask zero r h = bit_and-zero r ∙ omega arith
bit_and-mask (suc k) r h = omega (
  arith,
  bit_and-IsBitwise.lowest r (2 ^ suc k - 1),
  pow-suc 2 k,
  one-le-pow k 2,
  ap (bit_and (r / 2)) ones,
  bit_and-mask k (r / 2) (omega (arith, pow-suc 2 k)),
)
  where
    ones : (2 ^ suc k - 1) / 2 ≡ 2 ^ k - 1
    ones = omega (arith, pow-suc 2 k, one-le-pow k 2)

-- A number is what it is above a bit and below it.
pub cut : (a k : ℕ) → a / 2 ^ k * 2 ^ k + a % 2 ^ k ≡ a
cut a k = grind arith

pub mod-pow-lt : (a k : ℕ) → a % 2 ^ k < 2 ^ k
mod-pow-lt a k = grind (arith, one-le-pow k 2)

-- `a & (2^k - 1)`
pub bit_and-low_mask : (k a : ℕ) → bit_and a (2 ^ k - 1) ≡ a % 2 ^ k
bit_and-low_mask k a =
    ap₂ bit_and (sym (cut a k)) (omega arith)
    ∙ op_parts bit_and min bit_and-IsBitwise k (a / 2 ^ k) 0 (a % 2 ^ k) (2 ^ k - 1)
        (mod-pow-lt a k) (omega (arith, one-le-pow k 2))
    ∙ rw (bit_and-zero (a / 2 ^ k)) (omega (arith, bit_and-mask k (a % 2 ^ k) (mod-pow-lt a k)))
