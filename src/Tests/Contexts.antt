-- ===== src/Tests/Contexts.antt =====
-- The stack of contexts, and the functions of definition files, at small worlds.
use hwpp.Prelude.{
  ℕ, zero, suc, ◌<◌, bit_and, ◌≡◌, refl, ◌≢◌, false, none, some, List, [], ◌∷◌, if◌then◌else◌, ◌==◌,
  get_elem?, Bytes, codes, bytes_eq, ok, throw,
}
use hwpp.Prelude.Int.{pos}
use hwpp.Word.{mask}
use hwpp.Datatype.{Datatype}
use hwpp.Util.StdMap
use hwpp.Util.KeyedVector.Invariant.{IsSync, clear-IsSync}
use hwpp.Path.Element.{Element, array_none, parse}
use hwpp.Path.Element
use hwpp.Scope.Walk.{is_dotdot}
use hwpp.Path.Sequence.{HwppPath, of_element}
use hwpp.Scope.{
  Scope, Store, register, alias, scope, scope_at, new_scope, set_parent, dirent, find_value,
}
use hwpp.Runtime.{Context, new_context}
use hwpp.Runtime.Action.{not_found, Act, pure, io_error}
use hwpp.Runtime.Access.{
  bound_register, proc_register, constant_register, Leaf, register_leaf, Bits, simple, direct_field,
  World, Bindings, RwProcs, read_register, read_field,
}
use hwpp.Runtime.Balance.{
  within, KeepsStack, ProcsKeepStack, read_field-KeepsStack, read_register-returned,
}
use hwpp.FakeLanguage.{first_byte, get_dirent}
use hwpp.FakeLanguage.Define.{define, open_scope, close_scope, define_register}
use hwpp.FakeLanguage.Objects.{read_path}
use hwpp.FakeLanguage.Names.{IsPlain}
use hwpp.FakeLanguage.Added.{IsCurrent, define-adds}
use hwpp.FakeLanguage.Opened.{close_scope-open_scope, get_dirent-define_register}

abbrev named : Bytes → Element
named n = record {
  m_name = n;
  m_array_mode = array_none;
  m_array_index = pos 0;
  m_is_bookmark = false;
}

abbrev top : Context
top = record { m_name = named (codes "hwpp"); m_scope = 0; m_readonly = false }

-- One scope, with a binding; the hardware is one number.
abbrev world : World ℕ ℕ ℕ
world = record {
  m_context_stack = top ∷ [];
  rest = record { store = scope (new_scope (some 7)) ∷ []; redefined = []; hardware = 5 };
}

-- Procedure 0 returns what the hardware holds; procedure 1 throws.
abbrev run_procs : ℕ → Act (World ℕ ℕ ℕ) ℕ
run_procs zero w = (ok w.rest.hardware, w)
run_procs (suc n) w = (throw io_error, w)

abbrev store_value : ℕ → ℕ → Act (World ℕ ℕ ℕ) (Unit {0})
store_value zero value w = (ok tt, record w { rest = record w.rest { hardware = value } })
store_value (suc n) value w = (throw io_error, w)

abbrev procs : RwProcs ℕ (World ℕ ℕ ℕ)
procs = record { procs_read = run_procs; procs_write = store_value }

abbrev bindings : Bindings ℕ ℕ
bindings = record {
  binding_read = λ b address width s. (ok s, s);
  binding_write = λ b address width value s. (ok tt, value);
}

run_procs-KeepsStack : (p : ℕ) → KeepsStack (run_procs p)
run_procs-KeepsStack zero w w' a h = cc
run_procs-KeepsStack (suc p) w w' a h = cc

store_value-KeepsStack : (p value : ℕ) → KeepsStack (store_value p value)
store_value-KeepsStack zero value w w' a h = cc
store_value-KeepsStack (suc p) value w w' a h = cc

procs-ProcsKeepStack : ProcsKeepStack procs
procs-ProcsKeepStack = record { reads = run_procs-KeepsStack; writes = store_value-KeepsStack }

abbrev plain_type : Datatype
plain_type = record {
  evaluate = λ v. ok [];
  lookup_string = λ s. ok (pos 0);
  lookup_value = λ v. ok v;
}

abbrev low_byte : Bits ℕ ℕ
low_byte = simple (proc_register 0 16 top) 0 7 255

read_field-KeepsStack_example :
    KeepsStack (read_field bindings procs (λ n. 8) (direct_field plain_type low_byte))
read_field-KeepsStack_example =
    read_field-KeepsStack bindings procs (λ n. 8) procs-ProcsKeepStack
      (direct_field plain_type low_byte)

read_register-returned_example :
    read_register bindings procs (proc_register 0 2 top) world ≡ (ok (bit_and 5 (mask 2)), world)
read_register-returned_example =
    read_register-returned bindings procs 0 2 5 top top [] world (within top world) refl refl refl

-- The register is read in the context of its definition, and the value is cut.
read_register-cut : read_register bindings procs (proc_register 0 2 top) world ≡ (ok 1, world)
unfolding read_register
read_register-cut = refl

world-IsCurrent : IsCurrent world top [] (new_scope (some 7))
unfolding scope_at new_scope dirent find_value StdMap.find
world-IsCurrent = record {
  on_top = refl;
  here = refl;
  sync = clear-IsSync;
  present = λ name de h. absurd (nothing name de h);
}
  where
    nothing :
        (name : Bytes) (de : ℕ)
        → dirent name (new_scope {B = ℕ} {D = Datatype} (some 7)) ≡ some de
        → ⊥
    nothing name de h = cc

cpu-IsPlain : IsPlain (named (codes "cpu"))
unfolding is_dotdot
cpu-IsPlain = record { unindexed = refl; downward = refl; unmarked = refl }

parse-cpu : parse (codes "cpu") ≡ ok (named (codes "cpu"))
unfolding parse Element.run Element.step
parse-cpu = refl

close_scope-open_scope_example :
    (w' : World ℕ ℕ ℕ) × (s' : Scope ℕ Datatype) × (open_scope 1 (codes "cpu") none world
      ≡ (ok tt, w'))
    × IsCurrent w' (new_context (named (codes "cpu")) 1) (top ∷ []) (set_parent 0 (new_scope none))
    × (scope_at w'.rest.store 0 ≡ ok s')
    × ((other : Bytes)
        → dirent other s' ≡ (
            if codes "cpu" == other
            then some 1
            else dirent other (new_scope {B = ℕ} {D = Datatype} (some 7))))
    × (close_scope w' ≡ (ok tt, record w' { m_context_stack = top ∷ [] }))
unfolding first_byte
close_scope-open_scope_example =
    close_scope-open_scope 0 (codes "cpu") none (named (codes "cpu")) world top []
      (new_scope (some 7)) world-IsCurrent refl parse-cpu cpu-IsPlain refl

reg-IsPlain : IsPlain (named (codes "%id"))
unfolding is_dotdot
reg-IsPlain = record { unindexed = refl; downward = refl; unmarked = refl }

parse-reg : parse (codes "%id") ≡ ok (named (codes "%id"))
unfolding parse Element.run Element.step
parse-reg = refl

get_dirent-define_register_example :
    (w' : World ℕ ℕ ℕ) × (define_register 1 (codes "%id") (pure (bound_register 7 (pos 0) 32)) world
      ≡ (ok (bound_register 7 (pos 0) 32), w'))
    × (w'.m_context_stack ≡ top ∷ [])
    × (get_dirent 1 (of_element (named (codes "%id"))) w'
        ≡ (ok (register (register_leaf (bound_register 7 (pos 0) 32))), w'))
unfolding first_byte
get_dirent-define_register_example =
    get_dirent-define_register 0 0 (codes "%id") (bound_register 7 (pos 0) 32) (named (codes "%id"))
      world top [] (new_scope (some 7)) world-IsCurrent refl parse-reg reg-IsPlain refl

-- An alias `a` to an alias `b` to a register, in a scope `cpu`.
abbrev relative : Bytes → HwppPath
relative name = record { m_list = named name ∷ []; m_absolute = false }

abbrev in_cpu : Bytes → HwppPath
in_cpu name = record { m_list = named (codes "cpu") ∷ named name ∷ []; m_absolute = false }

abbrev entries_of : List (Bytes × ℕ) → List ℕ → List Bytes → Scope ℕ Datatype
entries_of keys values keyptrs = record (new_scope none) {
  m_dirents = record { m_keys = keys; m_values = values; m_keyptrs = keyptrs };
}

abbrev aliases : World ℕ ℕ ℕ
aliases = record {
  m_context_stack = top ∷ [];
  rest = record {
    store =
        scope (entries_of ((codes "cpu", 0) ∷ []) (1 ∷ []) (codes "cpu" ∷ []))
        ∷ scope (
            set_parent 0 (
              entries_of ((codes "a", 0) ∷ (codes "b", 1) ∷ (codes "%r", 2) ∷ []) (2 ∷ 3 ∷ 4 ∷ [])
                (codes "a" ∷ codes "b" ∷ codes "%r" ∷ [])))
        ∷ alias (relative (codes "b"))
        ∷ alias (relative (codes "%r"))
        ∷ register (register_leaf (constant_register 9 8))
        ∷ [];
    redefined = [];
    hardware = 0;
  };
}

-- One alias is followed where it stands; of two, the second is read in the current context.
read_path-one_alias :
    read_path bindings procs (λ n. 8) 5 5 (in_cpu (codes "b")) aliases ≡ (ok (pos 9), aliases)
unfolding read_path set_parent new_scope Element.to_string
read_path-one_alias = refl

read_path-two_aliases :
    read_path bindings procs (λ n. 8) 5 5 (in_cpu (codes "a")) aliases ≡ (throw not_found, aliases)
unfolding read_path set_parent new_scope Element.to_string
read_path-two_aliases = refl

define-adds_example :
    (r : List Bytes) × (st' : Store ℕ Datatype (Leaf ℕ ℕ)) × (s' : Scope ℕ Datatype) × (define 1
        (λ elem. pure tt)
        (codes "cpu")
        (pure 3)
        (λ n. scope (new_scope (some n)))
        world
      ≡ (
        ok (named (codes "cpu"), 3, 1),
        record world { rest = record { store = st'; redefined = r; hardware = 5 } },
      ))
    × (scope_at st' 0 ≡ ok s')
    × IsSync s'.m_dirents
    × ((other : Bytes)
        → dirent other s' ≡ (
            if codes "cpu" == other
            then some 1
            else dirent other (new_scope {B = ℕ} {D = Datatype} (some 7))))
    × (get_elem? st' 1 ≡ some (scope (new_scope (some 3))))
    × ((place : ℕ)
        → 0 ≢ place
        → place < 1
        → get_elem? st' place
          ≡ get_elem? (scope (new_scope {B = ℕ} {D = Datatype} (some 7)) ∷ []) place)
define-adds_example =
    define-adds 0 (λ elem. pure tt) (codes "cpu") (pure 3) (λ n. scope (new_scope (some n)))
      (named (codes "cpu")) 3 world top [] (new_scope (some 7)) world-IsCurrent parse-cpu
      cpu-IsPlain refl (λ r. refl)
