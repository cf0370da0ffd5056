-- ===== src/Tests/RegisterBits.antt =====
-- regbits.h over a machine of two 16-bit registers.
use hwpp.Prelude.{
  ℕ, zero, suc, ◌+◌, ◌/◌, ◌%◌, ◌^◌, ◌≤◌, ◌<◌, ◌≡◌, refl, some, List, [], ◌∷◌, arith, ok,
}
use hwpp.Word.{mask}
use hwpp.RegBits.{Register, RegBits, SubBits, simple, complex, nil, cons, init, width, read, write}
use hwpp.RegBits.Access.{IsPopcount, IsCell, read-write}
use hwpp.RegBits.Parts.{Range}

-- A population count, for the parameter.
digits_set : ℕ → ℕ → ℕ
digits_set zero n = 0
digits_set (suc f) n = digits_set f (n / 2) + n % 2

digits_set-enough : (f g n : ℕ) → n ≤ f → n ≤ g → digits_set f n ≡ digits_set g n
unfolding digits_set
digits_set-enough zero zero n hf hg = refl
digits_set-enough zero (suc g) n hf hg =
    omega (arith, digits_set-enough zero g (n / 2) (omega arith) (omega arith))
digits_set-enough (suc f) zero n hf hg =
    omega (arith, digits_set-enough f zero (n / 2) (omega arith) (omega arith))
digits_set-enough (suc f) (suc g) n hf hg =
    omega (arith, digits_set-enough f g (n / 2) (omega arith) (omega arith))

pub popcount : ℕ → ℕ
popcount n = digits_set n n

pub popcount-IsPopcount : IsPopcount popcount
unfolding popcount digits_set
popcount-IsPopcount = record { none_set = refl; lowest = lowest }
  where
    lowest : (n : ℕ) → digits_set n n ≡ digits_set (n / 2) (n / 2) + n % 2
    lowest zero = refl
    lowest (suc n) =
        omega (arith, digits_set-enough n (suc n / 2) (suc n / 2) (omega arith) (omega arith))

abbrev pub first : Register (ℕ × ℕ)
first = record { width = 16; read = λ s. s.0 % 65536; write = λ v s. (v, s.1) }

abbrev second : Register (ℕ × ℕ)
second = record { width = 16; read = λ s. s.1 % 65536; write = λ v s. (s.0, v) }

pub first-IsCell : IsCell first
first-IsCell = record { holds = λ s. omega arith; gives_back = λ v s h. omega arith }

abbrev pub start : ℕ × ℕ
start = (0x1234, 0x5678)

abbrev low_byte : RegBits (ℕ × ℕ)
low_byte = simple first 0 7 0xff

abbrev pub nibble : RegBits (ℕ × ℕ)
nibble = simple first 8 11 0xf

abbrev whole : RegBits (ℕ × ℕ)
whole = simple second 0 15 0xffff

pub nibble_made : init (some first) 11 8 ≡ ok nibble
unfolding init mask
nibble_made = refl

read-write_example :
    read popcount nibble (write popcount nibble 0x5a start) ≡ 0x5a % 2 ^ width popcount nibble
read-write_example =
    read-write popcount popcount-IsPopcount first first-IsCell 11 8 nibble nibble_made 0x5a start

-- Bits 11 to 8 of the first register, the second register, and bits 7 to 0 of the first register.
abbrev parts : SubBits (ℕ × ℕ)
parts = cons nibble (cons whole (cons low_byte nil))

abbrev ranges : List (Range (ℕ × ℕ))
ranges =
    record { m_reg = first; m_hi_bit = 11; m_lo_bit = 8 }
    ∷ record { m_reg = second; m_hi_bit = 15; m_lo_bit = 0 }
    ∷ record { m_reg = first; m_hi_bit = 7; m_lo_bit = 0 }
    ∷ []

-- The lowest bits go to the last part.
parts_written : write popcount (complex parts) 0xabcdef0 start ≡ (0x1af0, 0xbcde)
unfolding write popcount digits_set width
parts_written = refl

pub nibble_holds : 4 < 2 ^ width popcount nibble
unfolding width popcount digits_set
nibble_holds = omega arith
