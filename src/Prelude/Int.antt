-- ===== src/Prelude/Int.antt =====
-- Signed integers over the native numbers, under the library's names, and their decimal digits.
use Prim.Native.Nat.{ℕ, zero, suc, ◌+◌, ◌-◌, ◌/◌, ◌%◌}
use mathlib.Core.Path.{◌≡◌, refl}
use mathlib.Core.Logic.{◌↔◌}
use mathlib.Core.Bool.{Bool, true, false}
use mathlib.Core.List.{[], ◌∷◌}
use native.Mathlib.Omega.{arith}
use hwpp.Prelude.Tests.{ltb, leb, eqb, if◌then◌else◌, Eq}
use hwpp.Prelude.Strings.{Bytes}

-- `negsuc n` is -(n + 1).
pub data ℤ : Type 0 where
  pos : ℕ → ℤ
  negsuc : ℕ → ℤ

-- -n, for a number n.
abbrev pub neg : ℕ → ℤ
neg n = if leb n 0 then pos 0 else negsuc (n - 1)

-- a - b, for numbers a and b.
abbrev pub diff : ℕ → ℕ → ℤ
diff a b = if leb b a then pos (a - b) else negsuc (b - a - 1)

infixl 70 ◌-ℤ◌
abbrev pub ◌-ℤ◌ : ℤ → ℤ → ℤ
pos a -ℤ pos b = diff a b
pos a -ℤ negsuc b = pos (a + b + 1)
negsuc a -ℤ pos b = negsuc (a + b)
negsuc a -ℤ negsuc b = diff b a

abbrev pub z_leb : ℤ → ℤ → Bool
z_leb (pos a) (pos b) = leb a b
z_leb (pos a) (negsuc b) = false
z_leb (negsuc a) (pos b) = true
z_leb (negsuc a) (negsuc b) = leb b a

abbrev pub z_ltb : ℤ → ℤ → Bool
z_ltb (pos a) (pos b) = ltb a b
z_ltb (pos a) (negsuc b) = false
z_ltb (negsuc a) (pos b) = true
z_ltb (negsuc a) (negsuc b) = ltb b a

abbrev pub z_eqb : ℤ → ℤ → Bool
z_eqb (pos a) (pos b) = eqb a b
z_eqb (pos a) (negsuc b) = false
z_eqb (negsuc a) (pos b) = false
z_eqb (negsuc a) (negsuc b) = eqb a b

pub z_eqb_iff : (a b : ℤ) → (z_eqb a b ≡ true) ↔ (a ≡ b)
z_eqb_iff (pos a) (pos b) = ground arith
z_eqb_iff (pos a) (negsuc b) = ground arith
z_eqb_iff (negsuc a) (pos b) = ground arith
z_eqb_iff (negsuc a) (negsuc b) = ground arith

instance abbrev pub int_eq : Eq ℤ
int_eq = record { same = z_eqb; same_iff = z_eqb_iff }

pub z_leb_trans : (a b c : ℤ) → z_leb a b ≡ true → z_leb b c ≡ true → z_leb a c ≡ true
z_leb_trans (pos a) (pos b) (pos c) h k = ground arith
z_leb_trans (pos a) (pos b) (negsuc c) h k = cc
z_leb_trans (pos a) (negsuc b) c h k = cc
z_leb_trans (negsuc a) b (pos c) h k = refl
z_leb_trans (negsuc a) (pos b) (negsuc c) h k = cc
z_leb_trans (negsuc a) (negsuc b) (negsuc c) h k = ground arith

-- Two integers are in order, or the other way round and apart.
pub z_ltb_not : (a b : ℤ) → z_ltb a b ≡ false → z_leb b a ≡ true
z_ltb_not (pos a) (pos b) h = ground arith
z_ltb_not (pos a) (negsuc b) h = refl
z_ltb_not (negsuc a) (pos b) h = cc
z_ltb_not (negsuc a) (negsuc b) h = ground arith

pub z_leb_not : (a b : ℤ) → z_ltb a b ≡ true → z_leb b a ≡ false
z_leb_not (pos a) (pos b) h = ground arith
z_leb_not (pos a) (negsuc b) h = cc
z_leb_not (negsuc a) (pos b) h = refl
z_leb_not (negsuc a) (negsuc b) h = ground arith

pub z_lt→le : (a b : ℤ) → z_ltb a b ≡ true → z_leb a b ≡ true
z_lt→le (pos a) (pos b) h = ground arith
z_lt→le (pos a) (negsuc b) h = cc
z_lt→le (negsuc a) (pos b) h = refl
z_lt→le (negsuc a) (negsuc b) h = ground arith

pub z_lt_le_trans : (a b c : ℤ) → z_ltb a b ≡ true → z_leb b c ≡ true → z_ltb a c ≡ true
z_lt_le_trans (pos a) (pos b) (pos c) h k = ground arith
z_lt_le_trans (pos a) (pos b) (negsuc c) h k = cc
z_lt_le_trans (pos a) (negsuc b) c h k = cc
z_lt_le_trans (negsuc a) b (pos c) h k = refl
z_lt_le_trans (negsuc a) (pos b) (negsuc c) h k = cc
z_lt_le_trans (negsuc a) (negsuc b) (negsuc c) h k = ground arith

pub z_le_lt_trans : (a b c : ℤ) → z_leb a b ≡ true → z_ltb b c ≡ true → z_ltb a c ≡ true
z_le_lt_trans (pos a) (pos b) (pos c) h k = ground arith
z_le_lt_trans (pos a) (pos b) (negsuc c) h k = cc
z_le_lt_trans (pos a) (negsuc b) c h k = cc
z_le_lt_trans (negsuc a) b (pos c) h k = refl
z_le_lt_trans (negsuc a) (pos b) (negsuc c) h k = cc
z_le_lt_trans (negsuc a) (negsuc b) (negsuc c) h k = ground arith

-- The sign of a difference says how the integers stand.
pub diff-sign : (a b : ℕ) → z_ltb (diff a b) (pos 0) ≡ ltb a b
diff-sign a b = ground arith

pub sub-sign : (a b : ℤ) → z_ltb (a -ℤ b) (pos 0) ≡ z_ltb a b
sub-sign (pos a) (pos b) = diff-sign a b
sub-sign (pos a) (negsuc b) = ground arith
sub-sign (negsuc a) (pos b) = refl
sub-sign (negsuc a) (negsuc b) = diff-sign b a

diff-zero : (a b : ℕ) → z_ltb (pos 0) (diff a b) ≡ ltb b a
diff-zero a b = ground arith

pub sub-sign_up : (a b : ℤ) → z_ltb (pos 0) (a -ℤ b) ≡ z_ltb b a
sub-sign_up (pos a) (pos b) = diff-zero a b
sub-sign_up (pos a) (negsuc b) = ground arith
sub-sign_up (negsuc a) (pos b) = refl
sub-sign_up (negsuc a) (negsuc b) = diff-zero b a

-- The decimal digits of a number; the fuel is the number itself, which has no more digits.
unfoldable pub decimal_onto : ℕ → ℕ → Bytes → Bytes
decimal_onto zero n rest = (b'0' + n % 10) ∷ rest
decimal_onto (suc f) n rest =
    let more = decimal_onto f (n / 10) ((b'0' + n % 10) ∷ rest) in
    if ltb n 10 then (b'0' + n) ∷ rest else more

unfoldable pub decimal : ℕ → Bytes
unfolding decimal_onto
decimal n = decimal_onto n n []

-- The standard stream output of an integer.
unfoldable pub int_to_string : ℤ → Bytes
unfolding decimal
int_to_string (pos n) = decimal n
int_to_string (negsuc n) = b'-' ∷ decimal (n + 1)
