-- ===== src/RegBits.antt =====
-- regbits.h: ranges of register bits, and their concatenation. A register (register.h) is an
-- object with a state behind it, read and written as a number that is not negative; its reads
-- change nothing and neither reads nor writes throw. GMP's population count is a parameter.
pub mod Field
pub mod Access
pub mod Joined
pub mod Parts
use hwpp.Prelude.{
  ℕ, ◌+◌, ◌-◌, ◌*◌, ◌/◌, ◌%◌, ◌^◌, bit_and, bit_or, bit_xor, Option, none, some, ltb, leb,
  if◌then◌else◌, Outcome, ok, throw,
}
use hwpp.Word.{mask}

-- A register over a machine whose state is `S`.
pub record Register (S : Type 0) : Type 0 where
  pub width : ℕ
  pub read : S → ℕ
  pub write : ℕ → S → S

-- Either one range of one register, or a sequence of parts, the most significant first.
mutual
  pub data RegBits (S : Type 0) : Type 0 where
    simple : Register S → (lo_bit hi_bit mask : ℕ) → RegBits S
    complex : SubBits S → RegBits S

  pub data SubBits (S : Type 0) : Type 0 where
    nil : SubBits S
    cons : RegBits S → SubBits S → SubBits S

pub data RangeError : Type 0 where
  null_register bad_bitrange register_too_narrow : RangeError

module _ {S : Type 0} where
  -- `RegBits()`
  unfoldable pub empty : RegBits S
  empty = complex nil

  -- `init`, with `none` for a null pointer.
  unfoldable pub init : Option (Register S) → ℕ → ℕ → Outcome RangeError (RegBits S)
  unfolding mask
  init none hi_bit lo_bit = throw null_register
  init (some reg) hi_bit lo_bit =
      if ltb hi_bit lo_bit
      then throw bad_bitrange
      else if leb reg.width hi_bit
      then throw register_too_narrow
      else ok (simple reg lo_bit hi_bit (mask (hi_bit - lo_bit + 1)))

  -- `RegBits(reg)`: the full register. `width - 1` is 32 bits wide.
  unfoldable pub of_register : Option (Register S) → Outcome RangeError (RegBits S)
  unfolding init
  of_register none = init none 0 0
  of_register (some reg) = init (some reg) ((reg.width + 2 ^ 32 - 1) % 2 ^ 32) 0

  -- `RegBits(reg, bit)`
  unfoldable pub of_bit : Option (Register S) → ℕ → Outcome RangeError (RegBits S)
  of_bit reg bit = init reg bit bit

  pub push_back : SubBits S → RegBits S → SubBits S
  push_back nil that = cons that nil
  push_back (cons b bs) that = cons b (push_back bs that)

  -- `operator+`, and `operator+=`, which stores the same value.
  unfoldable pub join : RegBits S → RegBits S → RegBits S
  unfolding push_back
  join (simple reg lo hi m) that = complex (push_back (push_back nil (simple reg lo hi m)) that)
  join (complex subs) that = complex (push_back subs that)

module _ {S : Type 0} (popcount : ℕ → ℕ) where
  unfoldable mutual
    pub width : RegBits S → ℕ
    width (simple reg lo hi m) = popcount m
    width (complex subs) = width_subs subs

    -- The sum of the parts' widths.
    pub width_subs : SubBits S → ℕ
    width_subs nil = 0
    width_subs (cons b bs) = width b + width_subs bs

  unfoldable mutual
    pub read : RegBits S → S → ℕ
    read (simple reg lo hi m) s = bit_and (reg.read s / 2 ^ lo) m
    read (complex subs) s = read_subs subs 0 s

    -- The loop of `read`, which shifts `result` and puts in the next part.
    pub read_subs : SubBits S → ℕ → S → ℕ
    read_subs nil result s = result
    read_subs (cons b bs) result s = read_subs bs (bit_or (result * 2 ^ width b) (read b s)) s

  unfoldable mutual
    pub write : RegBits S → ℕ → S → S
    write (simple reg lo hi m) value s =
        let myval = bit_and value m * 2 ^ lo in
        let tmp = reg.read s in reg.write (bit_or (bit_xor tmp (bit_and tmp (m * 2 ^ lo))) myval) s
    write (complex subs) value s = (write_subs subs value s).1

    -- The loop of `write` from the last part to the first, with what is left of `myval`.
    pub write_subs : SubBits S → ℕ → S → ℕ × S
    write_subs nil myval s = (myval, s)
    write_subs (cons b bs) myval s =
        let (rest, s') = write_subs bs myval s in (rest / 2 ^ width b, write b rest s')
