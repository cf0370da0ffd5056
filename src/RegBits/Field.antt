-- ===== src/RegBits/Field.antt =====
-- The bit operations of `RegBits::read` and `RegBits::write` on one range, as arithmetic.
use hwpp.Prelude.{
  ℕ, zero, suc, ◌+◌, ◌-◌, ◌*◌, ◌/◌, ◌%◌, ◌^◌, ◌≤◌, ◌<◌, bit_and, bit_or, bit_xor, ◌≡◌, refl, sym,
  ap, ap₂, ◌∙◌, subst, ◌⊎◌, inl, inr, arith,
}
use native.Mathlib.Nat.{
  one-le-pow, div-lt_iff_lt-mul, mul-add-div_right, div-eq_of_lt, mul-add-mod_self_right, mod-mod,
  mod-eq_of_lt, add-zero, add-suc, pow-suc, mul_assoc, div-div-eq-div-mul,
}
use hwpp.Prelude.Bits.{
  op_parts, bit_and-IsBitwise, bit_or-IsBitwise, bit_xor-IsBitwise, bit_and-zero, bit_or-zero,
  zero-bit_or, bit_xor-zero, bit_xor_self, bit_and-low_mask, cut, mod-pow-lt,
}

-- The `w` bits of `r` from bit `lo` on.
abbrev pub get_bits : ℕ → ℕ → ℕ → ℕ
get_bits r lo w = r / 2 ^ lo % 2 ^ w

-- `r` with those bits replaced by the low bits of `v`.
abbrev pub put_bits : ℕ → ℕ → ℕ → ℕ → ℕ
put_bits r lo w v = (r / 2 ^ lo / 2 ^ w * 2 ^ w + v % 2 ^ w) * 2 ^ lo + r % 2 ^ lo

positive : (k : ℕ) → 0 < 2 ^ k
positive k = one-le-pow k 2 (omega arith)

and-shifted_mask : (t lo w : ℕ) → bit_and t ((2 ^ w - 1) * 2 ^ lo) ≡ t / 2 ^ lo % 2 ^ w * 2 ^ lo
and-shifted_mask t lo w =
    ap₂ bit_and (sym (cut t lo)) (omega arith)
    ∙ op_parts bit_and _ bit_and-IsBitwise lo (t / 2 ^ lo) (2 ^ w - 1) (t % 2 ^ lo) 0
        (mod-pow-lt t lo) (positive lo)
    ∙ rw (bit_and-low_mask w (t / 2 ^ lo), bit_and-zero (t % 2 ^ lo)) (omega arith)

pub xor_low_part : (h w : ℕ) → bit_xor h (h % 2 ^ w) ≡ h / 2 ^ w * 2 ^ w
xor_low_part h w =
    ap₂ bit_xor (sym (cut h w)) (omega arith)
    ∙ op_parts bit_xor _ bit_xor-IsBitwise w (h / 2 ^ w) 0 (h % 2 ^ w) (h % 2 ^ w) (mod-pow-lt h w)
        (mod-pow-lt h w)
    ∙ rw (bit_xor-zero (h / 2 ^ w), bit_xor_self (h % 2 ^ w)) (omega arith)

-- Clearing a field by exclusive or with itself.
cleared :
    (t lo w : ℕ)
    → bit_xor t (t / 2 ^ lo % 2 ^ w * 2 ^ lo) ≡ t / 2 ^ lo / 2 ^ w * 2 ^ w * 2 ^ lo + t % 2 ^ lo
cleared t lo w =
    ap₂ bit_xor (sym (cut t lo)) (omega arith)
    ∙ op_parts bit_xor _ bit_xor-IsBitwise lo (t / 2 ^ lo) (t / 2 ^ lo % 2 ^ w) (t % 2 ^ lo) 0
        (mod-pow-lt t lo) (positive lo)
    ∙ rw (xor_low_part (t / 2 ^ lo) w, bit_xor-zero (t % 2 ^ lo))

-- `|` of a number above bit `w` and one below is their sum.
pub or_above : (q w r : ℕ) → r < 2 ^ w → bit_or (q * 2 ^ w) r ≡ q * 2 ^ w + r
or_above q w r h =
    ap₂ bit_or (omega arith) (omega arith)
    ∙ op_parts bit_or _ bit_or-IsBitwise w q 0 0 r (positive w) h
    ∙ rw (bit_or-zero q, zero-bit_or r)

-- What `write` stores.
pub write-put_bits :
    (t lo w v : ℕ)
    → bit_or (bit_xor t (bit_and t ((2 ^ w - 1) * 2 ^ lo))) (bit_and v (2 ^ w - 1) * 2 ^ lo)
      ≡ put_bits t lo w v
write-put_bits t lo w v =
    rw (and-shifted_mask t lo w, cleared t lo w, bit_and-low_mask w v)
      (ap₂ bit_or refl (omega arith)
        ∙ op_parts bit_or _ bit_or-IsBitwise lo (t / 2 ^ lo / 2 ^ w * 2 ^ w) (v % 2 ^ w)
            (t % 2 ^ lo) 0 (mod-pow-lt t lo) (positive lo)
        ∙ rw (
          or_above (t / 2 ^ lo / 2 ^ w) w (v % 2 ^ w) (mod-pow-lt v w),
          bit_or-zero (t % 2 ^ lo),
        ))

put_bits-high : (r lo w v : ℕ) → put_bits r lo w v / 2 ^ lo ≡ r / 2 ^ lo / 2 ^ w * 2 ^ w + v % 2 ^ w
put_bits-high r lo w v =
    mul-add-div_right (positive lo) _ (r % 2 ^ lo)
    ∙ rw (div-eq_of_lt (mod-pow-lt r lo)) (omega arith)

-- Reading the written bits.
pub get_bits-put_bits : (r lo w v : ℕ) → get_bits (put_bits r lo w v) lo w ≡ v % 2 ^ w
get_bits-put_bits r lo w v =
    rw (put_bits-high r lo w v) (mul-add-mod_self_right _ (2 ^ w) (v % 2 ^ w) ∙ mod-mod v (2 ^ w))

pub pow-add : (a b : ℕ) → 2 ^ (a + b) ≡ 2 ^ a * 2 ^ b
pow-add a zero = rw add-zero (omega arith)
pow-add a (suc b) = rw (add-suc a b, pow-suc 2 (a + b), pow-suc 2 b, pow-add a b) (mul_assoc _ _ _)

pub div-pow-add : (r a b : ℕ) → r / 2 ^ (a + b) ≡ r / 2 ^ a / 2 ^ b
div-pow-add r a b = rw (pow-add a b) (sym (div-div-eq-div-mul r (2 ^ a) (2 ^ b)))

-- The bits above the written ones stay.
get_bits_above :
    (r lo w v d w' : ℕ) → get_bits (put_bits r lo w v) (lo + w + d) w' ≡ get_bits r (lo + w + d) w'
get_bits_above r lo w v d w' =
    ap (λ (q : ℕ). q % 2 ^ w')
      (div-pow-add _ (lo + w) d
        ∙ ap (λ (q : ℕ). q / 2 ^ d)
            (div-pow-add _ lo w
              ∙ ap (λ (q : ℕ). q / 2 ^ w) (put_bits-high r lo w v)
              ∙ mul-add-div_right (positive w) _ (v % 2 ^ w)
              ∙ rw (div-eq_of_lt (mod-pow-lt v w)) (add-zero _)
              ∙ sym (div-pow-add r lo w))
        ∙ sym (div-pow-add r (lo + w) d))

-- The bits in the low part do not depend on what stands above.
get_bits_low : (q l lo' w' d : ℕ) → get_bits (q * 2 ^ (lo' + w' + d) + l) lo' w' ≡ get_bits l lo' w'
get_bits_low q l lo' w' d =
    ap (λ (t : ℕ). (t + l) / 2 ^ lo' % 2 ^ w') regroup
    ∙ ap (λ (t : ℕ). t % 2 ^ w') (mul-add-div_right (positive lo') _ l)
    ∙ mul-add-mod_self_right (q * 2 ^ d) (2 ^ w') (l / 2 ^ lo')
  where
    regroup : q * 2 ^ (lo' + w' + d) ≡ q * 2 ^ d * 2 ^ w' * 2 ^ lo'
    regroup = rw (pow-add (lo' + w') d, pow-add lo' w') (grind arith)

get_bits_below :
    (r lo' w' d w v : ℕ) → get_bits (put_bits r (lo' + w' + d) w v) lo' w' ≡ get_bits r lo' w'
get_bits_below r lo' w' d w v =
    get_bits_low _ (r % 2 ^ (lo' + w' + d)) lo' w' d
    ∙ sym (get_bits_low (r / 2 ^ (lo' + w' + d)) (r % 2 ^ (lo' + w' + d)) lo' w' d)
    ∙ ap (λ (t : ℕ). get_bits t lo' w') (cut r (lo' + w' + d))

-- Bits outside the written ones stay as they are.
pub get_bits-put_bits_apart :
    (r lo w v lo' w' : ℕ)
    → (lo + w ≤ lo') ⊎ (lo' + w' ≤ lo)
    → get_bits (put_bits r lo w v) lo' w' ≡ get_bits r lo' w'
get_bits-put_bits_apart r lo w v lo' w' (inl above) =
    subst (λ (n : ℕ). get_bits (put_bits r lo w v) n w' ≡ get_bits r n w') (omega arith)
      (get_bits_above r lo w v (lo' - (lo + w)) w')
get_bits-put_bits_apart r lo w v lo' w' (inr below) =
    subst (λ (n : ℕ). get_bits (put_bits r n w v) lo' w' ≡ get_bits r lo' w') (omega arith)
      (get_bits_below r lo' w' (lo - (lo' + w')) w v)

pub digit_lt : (q b r n : ℕ) → q < n → r < b → q * b + r < n * b
digit_lt q b r n hq hr = grind arith

-- What is stored fits in as many bits as before, if the range does.
pub put_bits-lt : (r lo w v n : ℕ) → lo + w ≤ n → r < 2 ^ n → put_bits r lo w v < 2 ^ n
put_bits-lt r lo w v n inside h =
    subst (λ (m : ℕ). put_bits r lo w v < m) (sym split)
      (digit_lt _ (2 ^ lo) (r % 2 ^ lo) (2 ^ (n - (lo + w)) * 2 ^ w)
        (digit_lt _ (2 ^ w) (v % 2 ^ w) (2 ^ (n - (lo + w))) top (mod-pow-lt v w))
        (mod-pow-lt r lo))
  where
    split : 2 ^ n ≡ 2 ^ (n - (lo + w)) * 2 ^ w * 2 ^ lo
    split =
        ap (λ (k : ℕ). 2 ^ k) (omega arith)
        ∙ pow-add (n - (lo + w) + w) lo
        ∙ ap (λ (k : ℕ). k * 2 ^ lo) (pow-add (n - (lo + w)) w)

    top : r / 2 ^ lo / 2 ^ w < 2 ^ (n - (lo + w))
    top = (div-lt_iff_lt-mul (positive w)).1 ((div-lt_iff_lt-mul (positive lo)).1 (rw split at h))

-- The low bits of a number, in two parts.
pub mod-pow-add : (v b w : ℕ) → v % 2 ^ (b + w) ≡ v / 2 ^ w % 2 ^ b * 2 ^ w + v % 2 ^ w
mod-pow-add v b w =
    ap (λ (t : ℕ). t % 2 ^ (b + w)) whole
    ∙ mul-add-mod_self_right (v / 2 ^ w / 2 ^ b) (2 ^ (b + w))
        (v / 2 ^ w % 2 ^ b * 2 ^ w + v % 2 ^ w)
    ∙ mod-eq_of_lt fits
  where
    whole : v ≡ v / 2 ^ w / 2 ^ b * 2 ^ (b + w) + (v / 2 ^ w % 2 ^ b * 2 ^ w + v % 2 ^ w)
    whole =
        sym (cut v w)
        ∙ ap (λ (t : ℕ). t * 2 ^ w + v % 2 ^ w) (sym (cut (v / 2 ^ w) b))
        ∙ rw (pow-add b w) (grind arith)

    fits : v / 2 ^ w % 2 ^ b * 2 ^ w + v % 2 ^ w < 2 ^ (b + w)
    fits =
        rw (pow-add b w) (digit_lt _ (2 ^ w) _ (2 ^ b) (mod-pow-lt (v / 2 ^ w) b) (mod-pow-lt v w))
