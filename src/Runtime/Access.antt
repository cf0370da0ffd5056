-- ===== src/Runtime/Access.antt =====
-- register_types.h, field_types.h, magic_regs.cc and regbits.h: reading and writing registers and fields
-- whose accesses may throw, and those of procedures, which run in the context that was current where
-- they were defined. A binding (binding.h) and the procedures (rwprocs.h) of a definition file are
-- objects with virtual functions, which are arguments. What registers hold is not negative.
use hwpp.Prelude.{
  ℕ, ◌+◌, ◌-◌, ◌*◌, ◌/◌, ◌^◌, bit_and, bit_or, bit_xor, List, ltb, leb, if◌then◌else◌, Bytes,
  bytes_eq, Outcome, ok, throw,
}
use hwpp.Prelude.Int.{ℤ, pos}
use hwpp.Word.{mask}
use hwpp.Datatype.{Datatype}
use hwpp.RegBits.{RangeError, bad_bitrange, register_too_narrow}
use hwpp.Scope.{Store}
use hwpp.Runtime.{Context, Runtime, context_push, context_pop}
use hwpp.Runtime.Action.{Act, pure, ◌>>=◌, ◌>>◌, FkError}

-- BoundRegister: the binding, the address and the width. ProcRegister: the procedures, the width and
-- the context. The constant bindings of magic_regs.cc are registers of their own.
pub data FkRegister (B P : Type 0) : Type 0 where
  bound_register : B → ℤ → ℕ → FkRegister B P
  proc_register : P → ℕ → Context → FkRegister B P
  constant_register : ℕ → ℕ → FkRegister B P

-- RegBits over such registers: a range of one, or parts, the most significant first.
mutual
  pub data Bits (B P : Type 0) : Type 0 where
    simple : FkRegister B P → (lo_bit hi_bit mask : ℕ) → Bits B P
    complex : BitsList B P → Bits B P

  pub data BitsList (B P : Type 0) : Type 0 where
    nil : BitsList B P
    cons : Bits B P → BitsList B P → BitsList B P

-- DirectField, ConstantField and ProcField
pub data FkField (B P : Type 0) : Type 0 where
  direct_field : Datatype → Bits B P → FkField B P
  constant_field : Datatype → ℤ → FkField B P
  proc_field : Datatype → P → Context → FkField B P

-- The registers and the fields that stand in the scopes.
pub data Leaf (B P : Type 0) : Type 0 where
  register_leaf : FkRegister B P → Leaf B P
  field_leaf : FkField B P → Leaf B P

-- The objects, the names that a WARN reported as redefined, and what the hardware holds.
pub record Rest (B P S : Type 0) : Type 0 where
  pub store : Store B Datatype (Leaf B P)
  pub redefined : List Bytes
  pub hardware : S

abbrev pub World : Type 0 → Type 0 → Type 0 → Type 0
World B P S = Runtime (Rest B P S)

-- `Binding::read` and `Binding::write`, of an address and a width.
pub record Bindings (B S : Type 0) : Type 0 where
  pub binding_read : B → ℤ → ℕ → Act S ℕ
  pub binding_write : B → ℤ → ℕ → ℕ → Act S (Unit {0})

-- `RwProcs::read` and `RwProcs::write`
pub record RwProcs (P W : Type 0) : Type 0 where
  pub procs_read : P → Act W ℕ
  pub procs_write : P → ℕ → Act W (Unit {0})

unfoldable pub register_width : {B P : Type 0} → FkRegister B P → ℕ
register_width (bound_register b address width) = width
register_width (proc_register p width ctxt) = width
register_width (constant_register value width) = width

-- What happens to the hardware alone.
abbrev pub with_hardware :
    {B P S A : Type 0} → World B P S → Outcome FkError A × S → Outcome FkError A × World B P S
with_hardware w (result, h) = (result, record w { rest = record w.rest { hardware = h } })

abbrev pub on_hardware : {B P S A : Type 0} → Act S A → Act (World B P S) A
on_hardware act w = with_hardware w (act w.rest.hardware)

module _ {B P : Type 0} where
  -- `RegBits(reg, hi_bit, lo_bit)` of a register that is there.
  unfoldable pub init : FkRegister B P → ℕ → ℕ → Outcome RangeError (Bits B P)
  unfolding mask register_width
  init reg hi_bit lo_bit =
      if ltb hi_bit lo_bit
      then throw bad_bitrange
      else if leb (register_width reg) hi_bit
      then throw register_too_narrow
      else ok (simple reg lo_bit hi_bit (mask (hi_bit - lo_bit + 1)))

module _ {B P : Type 0} (popcount : ℕ → ℕ) where
  unfoldable mutual
    pub width : Bits B P → ℕ
    width (simple reg lo hi m) = popcount m
    width (complex subs) = width_list subs

    pub width_list : BitsList B P → ℕ
    width_list nil = 0
    width_list (cons b bs) = width b + width_list bs

module _ {B P S : Type 0} (bindings : Bindings B S) (procs : RwProcs P (World B P S)) where
  -- `Register::read` and `Register::write`
  unfoldable pub read_register : FkRegister B P → Act (World B P S) ℕ
  unfolding context_push context_pop mask
  read_register (bound_register b address width) =
      on_hardware (bindings.binding_read b address width)
  read_register (proc_register p width ctxt) = do
    context_push ctxt
    value ← procs.procs_read p
    context_pop
    pure (bit_and value (mask width))
  read_register (constant_register value width) = pure value

  unfoldable pub write_register : FkRegister B P → ℕ → Act (World B P S) (Unit {0})
  unfolding context_push context_pop mask
  write_register (bound_register b address width) value =
      on_hardware (bindings.binding_write b address width value)
  write_register (proc_register p width ctxt) value = do
    context_push ctxt
    procs.procs_write p (bit_and value (mask width))
    context_pop
  write_register (constant_register constant width) value = pure tt

  module _ (popcount : ℕ → ℕ) where
    -- `RegBits::read` and `RegBits::write`, with the loops over the parts.
    unfoldable mutual
      unfolding read_register width

      pub read_bits : Bits B P → Act (World B P S) ℕ
      read_bits (simple reg lo hi m) = do
        value ← read_register reg
        pure (bit_and (value / 2 ^ lo) m)
      read_bits (complex subs) = read_list subs 0

      pub read_list : BitsList B P → ℕ → Act (World B P S) ℕ
      read_list nil result = pure result
      read_list (cons b bs) result = do
        value ← read_bits b
        read_list bs (bit_or (result * 2 ^ width popcount b) value)

    unfoldable mutual
      unfolding read_register write_register width

      pub write_bits : Bits B P → ℕ → Act (World B P S) (Unit {0})
      write_bits (simple reg lo hi m) value = do
        old ← read_register reg
        write_register reg
            (bit_or (bit_xor old (bit_and old (m * 2 ^ lo))) (bit_and value m * 2 ^ lo))
      write_bits (complex subs) value = do rest ← write_list subs value; pure tt

      -- What is left of the value after the parts from the last to the first.
      pub write_list : BitsList B P → ℕ → Act (World B P S) ℕ
      write_list nil myval = pure myval
      write_list (cons b bs) myval = do
        rest ← write_list bs myval
        write_bits b rest
        pure (rest / 2 ^ width popcount b)

    -- `Field::read` and `Field::write`; a constant field discards what is written.
    unfoldable pub read_field : FkField B P → Act (World B P S) ℤ
    unfolding read_bits context_push context_pop
    read_field (direct_field datatype regbits) = do value ← read_bits regbits; pure (pos value)
    read_field (constant_field datatype value) = pure value
    read_field (proc_field datatype p ctxt) = do
      context_push ctxt
      value ← procs.procs_read p
      context_pop
      pure (pos value)

    unfoldable pub write_field : FkField B P → ℕ → Act (World B P S) (Unit {0})
    unfolding write_bits context_push context_pop
    write_field (direct_field datatype regbits) value = write_bits regbits value
    write_field (constant_field datatype constant) value = pure tt
    write_field (proc_field datatype p ctxt) value = do
      context_push ctxt
      procs.procs_write p value
      context_pop
