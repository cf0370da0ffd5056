-- ===== src/Runtime/Balance.antt =====
-- Registers and fields of procedures (register_types.h, field_types.h): what their accesses do to the
-- stack of contexts.
use hwpp.Prelude.{
  ℕ, ◌*◌, ◌/◌, ◌^◌, bit_and, bit_or, ◌≡◌, refl, sym, ap, ◌∙◌, List, ◌∷◌, arith, Outcome, ok, throw,
  undefined,
}
use hwpp.Prelude.Int.{pos}
use hwpp.Word.{mask}
use hwpp.Runtime.{Context, Runtime, context_push, context_pop}
use hwpp.Runtime.Action.{Act, pure, after, ◌>>=◌, FkError}
use hwpp.Runtime.Access.{
  FkRegister, bound_register, proc_register, constant_register, Bits, simple, complex, BitsList,
  nil, cons, FkField, direct_field, constant_field, proc_field, World, Bindings, RwProcs, width,
  with_hardware, on_hardware, read_register, write_register, read_bits, read_list, write_bits,
  write_list, read_field, write_field,
}

-- The runtime with a context pushed.
abbrev pub within : {W : Type 0} → Context → Runtime W → Runtime W
within ctxt w = record w { m_context_stack = ctxt ∷ w.m_context_stack }

-- An operation that returns leaves the stack of contexts as it was.
abbrev pub KeepsStack : {W A : Type 0} → Act (Runtime W) A → Type 0
KeepsStack {W} {A} act =
    (w w' : Runtime W) (a : A) → act w ≡ (ok a, w') → w'.m_context_stack ≡ w.m_context_stack

-- Inversion of a chain of operations that returned.
pub after-eq-ok :
    {W A B : Type 0} (first : Outcome FkError A × W) (next : A → Act W B) {b : B} {w' : W}
    → after first next ≡ (ok b, w')
    → (a : A) × (w1 : W) × (first ≡ (ok a, w1)) × (next a w1 ≡ (ok b, w'))
after-eq-ok (ok a, w1) next h = (a, w1, refl, h)
after-eq-ok (throw e, w1) next h = cc
after-eq-ok (undefined, w1) next h = cc

module _ {W A B : Type 0} where
  >>=-KeepsStack :
      (first : Act (Runtime W) A) (next : A → Act (Runtime W) B)
      → KeepsStack first
      → ((a : A) → KeepsStack (next a))
      → KeepsStack (first >>= next)
  >>=-KeepsStack first next keeps then_keeps w w' b h =
      let (a, w1, h1, h2) = after-eq-ok (first w) next h in
      then_keeps a w1 w' b h2 ∙ keeps w w1 a h1

pure-KeepsStack : {W A : Type 0} (a : A) → KeepsStack {W = W} (pure a)
pure-KeepsStack a w w' b h = let e : w' ≡ w = cc in ap (λ (v : Runtime _). v.m_context_stack) e

module _ {W : Type 0} where
  pop-stack :
      (w w' : Runtime W) (top : Context) (below : List Context) (t : Unit {0})
      → w.m_context_stack ≡ top ∷ below
      → context_pop w ≡ (ok t, w')
      → w'.m_context_stack ≡ below
  unfolding context_pop
  pop-stack w w' top below t e h = ground (arith, e, h)

  pub pop-below :
      (w : Runtime W) (top ctxt : Context) (below : List Context)
      → w.m_context_stack ≡ top ∷ ctxt ∷ below
      → context_pop w ≡ (ok tt, record w { m_context_stack = ctxt ∷ below })
  unfolding context_pop
  pop-below w top ctxt below e = ground (arith, e)

module _ {W A B : Type 0} where
  -- What runs in a context of its own.
  in_context-KeepsStack :
      (ctxt : Context) (first : Act (Runtime W) A) (f : A → B)
      → KeepsStack first
      → KeepsStack (context_push ctxt >>= λ _. first >>= λ a. context_pop >>= λ _. pure (f a))
  unfolding context_push
  in_context-KeepsStack ctxt first f keeps w w' b h =
      let (a, w1, h1, h2) = after-eq-ok (first (within ctxt w)) _ h in
      let (t, w2, h3, h4) = after-eq-ok (context_pop w1) (λ _. pure (f a)) h2 in
      let e : w' ≡ w2 = cc in
      ap (λ (v : Runtime W). v.m_context_stack) e
      ∙ pop-stack w1 w2 ctxt w.m_context_stack t (keeps (within ctxt w) w1 a h1) h3

module _ {W : Type 0} where
  in_context_write-KeepsStack :
      (ctxt : Context) (first : Act (Runtime W) (Unit {0}))
      → KeepsStack first
      → KeepsStack (context_push ctxt >>= λ _. first >>= λ _. context_pop)
  unfolding context_push
  in_context_write-KeepsStack ctxt first keeps w w' b h =
      let (a, w1, h1, h2) = after-eq-ok (first (within ctxt w)) _ h in
      pop-stack w1 w' ctxt w.m_context_stack b (keeps (within ctxt w) w1 a h1) h2

hardware-KeepsStack :
    {B P S A : Type 0} (act : Act S A) → KeepsStack (on_hardware {B = B} {P = P} act)
hardware-KeepsStack {B} {P} {S} {A} act w w' a h = go (act w.rest.hardware) h
  where
    go :
        (result : Outcome FkError A × S)
        → with_hardware w result ≡ (ok a, w')
        → w'.m_context_stack ≡ w.m_context_stack
    go (ok b, s) e = cc
    go (throw x, s) e = cc
    go (undefined, s) e = cc

-- Each access of the procedures that returns has closed every scope that it opened.
pub record ProcsKeepStack {W P : Type 0} (procs : RwProcs P (Runtime W)) : Type 0 where
  pub reads : (p : P) → KeepsStack (procs.procs_read p)
  pub writes : (p : P) (value : ℕ) → KeepsStack (procs.procs_write p value)

module _ {B P S : Type 0} (bindings : Bindings B S) (procs : RwProcs P (World B P S))
    (popcount : ℕ → ℕ) (kept : ProcsKeepStack procs) where
  read_register-KeepsStack : (reg : FkRegister B P) → KeepsStack (read_register bindings procs reg)
  unfolding read_register
  read_register-KeepsStack (bound_register b address width) = hardware-KeepsStack _
  read_register-KeepsStack (proc_register p width ctxt) =
      in_context-KeepsStack ctxt (procs.procs_read p) (λ v. bit_and v (mask width)) (kept.reads p)
  read_register-KeepsStack (constant_register value width) = pure-KeepsStack value

  write_register-KeepsStack :
      (reg : FkRegister B P) (value : ℕ) → KeepsStack (write_register bindings procs reg value)
  unfolding write_register
  write_register-KeepsStack (bound_register b address width) value = hardware-KeepsStack _
  write_register-KeepsStack (proc_register p width ctxt) value =
      in_context_write-KeepsStack ctxt (procs.procs_write p (bit_and value (mask width)))
        (kept.writes p (bit_and value (mask width)))
  write_register-KeepsStack (constant_register constant width) value = pure-KeepsStack tt

  mutual
    unfolding read_bits write_bits

    read_bits-KeepsStack : (bits : Bits B P) → KeepsStack (read_bits bindings procs popcount bits)
    read_bits-KeepsStack (simple reg lo hi m) =
        >>=-KeepsStack (read_register bindings procs reg)
          (λ value. pure (bit_and (value / 2 ^ lo) m)) (read_register-KeepsStack reg)
          (λ value. pure-KeepsStack (bit_and (value / 2 ^ lo) m))
    read_bits-KeepsStack (complex subs) = read_list-KeepsStack subs 0

    read_list-KeepsStack :
        (subs : BitsList B P) (result : ℕ)
        → KeepsStack (read_list bindings procs popcount subs result)
    read_list-KeepsStack nil result = pure-KeepsStack result
    read_list-KeepsStack (cons b bs) result =
        >>=-KeepsStack (read_bits bindings procs popcount b)
          (λ value.
            read_list bindings procs popcount bs (bit_or (result * 2 ^ width popcount b) value))
          (read_bits-KeepsStack b)
          (λ value. read_list-KeepsStack bs (bit_or (result * 2 ^ width popcount b) value))

  mutual
    unfolding write_bits

    write_bits-KeepsStack :
        (bits : Bits B P) (value : ℕ) → KeepsStack (write_bits bindings procs popcount bits value)
    write_bits-KeepsStack (simple reg lo hi m) value =
        >>=-KeepsStack (read_register bindings procs reg) _ (read_register-KeepsStack reg)
          (λ old. write_register-KeepsStack reg _)
    write_bits-KeepsStack (complex subs) value =
        >>=-KeepsStack (write_list bindings procs popcount subs value) (λ rest. pure tt)
          (write_list-KeepsStack subs value) (λ rest. pure-KeepsStack tt)

    write_list-KeepsStack :
        (subs : BitsList B P) (value : ℕ)
        → KeepsStack (write_list bindings procs popcount subs value)
    write_list-KeepsStack nil value = pure-KeepsStack value
    write_list-KeepsStack (cons b bs) value =
        >>=-KeepsStack (write_list bindings procs popcount bs value) _
          (write_list-KeepsStack bs value)
          (λ rest.
            >>=-KeepsStack (write_bits bindings procs popcount b rest)
              (λ _. pure (rest / 2 ^ width popcount b)) (write_bits-KeepsStack b rest)
              (λ _. pure-KeepsStack (rest / 2 ^ width popcount b)))

  -- Where the procedures of a definition file leave the stack of contexts as it was whenever they
  -- return, so does every read of a field that returns, through registers and parts of registers,
  -- bound or of procedures.
  pub read_field-KeepsStack : (f : FkField B P) → KeepsStack (read_field bindings procs popcount f)
  unfolding read_field
  read_field-KeepsStack (direct_field datatype regbits) =
      >>=-KeepsStack (read_bits bindings procs popcount regbits) (λ value. pure (pos value))
        (read_bits-KeepsStack regbits) (λ value. pure-KeepsStack (pos value))
  read_field-KeepsStack (constant_field datatype value) = pure-KeepsStack value
  read_field-KeepsStack (proc_field datatype p ctxt) =
      in_context-KeepsStack ctxt (procs.procs_read p) pos (kept.reads p)

  -- The same of every write of a field.
  write_field-KeepsStack :
      (f : FkField B P) (value : ℕ) → KeepsStack (write_field bindings procs popcount f value)
  unfolding write_field
  write_field-KeepsStack (direct_field datatype regbits) value = write_bits-KeepsStack regbits value
  write_field-KeepsStack (constant_field datatype constant) value = pure-KeepsStack tt
  write_field-KeepsStack (proc_field datatype p ctxt) value =
      in_context_write-KeepsStack ctxt (procs.procs_write p value) (kept.writes p value)

module _ {B P S : Type 0} (bindings : Bindings B S) (procs : RwProcs P (World B P S)) where
  -- Reading a register of procedures runs them in the context of the definition: if they return and
  -- have closed what they opened, and some context was current before, the read returns what they do,
  -- cut to the register's width, and the stack of contexts is what it was.
  pub read_register-returned :
      (p : P) (width value : ℕ) (ctxt top : Context) (below : List Context) (w w1 : World B P S)
      → w.m_context_stack ≡ top ∷ below
      → procs.procs_read p (within ctxt w) ≡ (ok value, w1)
      → w1.m_context_stack ≡ ctxt ∷ w.m_context_stack
      → read_register bindings procs (proc_register p width ctxt) w
        ≡ (ok (bit_and value (mask width)), record w1 { m_context_stack = w.m_context_stack })
  unfolding read_register context_push
  read_register-returned p width value ctxt top below w w1 some_context h stack =
      ap (λ r. after r (λ v. context_pop >>= λ _. pure (bit_and v (mask width)))) h
      ∙ ap (λ r. after r (λ _. pure (bit_and value (mask width))))
          (pop-below w1 ctxt top below (stack ∙ ap (λ l. ctxt ∷ l) some_context))
      ∙ ap (λ l. (ok (bit_and value (mask width)), record w1 { m_context_stack = l }))
          (sym some_context)
