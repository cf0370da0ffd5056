-- ===== src/Runtime.antt =====
-- context.h, runtime.h and runtime.cc: the stack of contexts, in which names are looked up and defined.
-- An operation acts on a world, and keeps what it did when it throws. A failed DASSERT is an error, as
-- it is in a DEBUG build. Scopes are not freed, so the weak pointer of a context is a place in the store.
pub mod Action
pub mod Access
pub mod Balance
use hwpp.Prelude.{ℕ, Bool, true, false, List, [], ◌∷◌, ltb, if◌then◌else◌, length, ok, throw, ◌>>◌}
use hwpp.Path.Element.{Element}
use hwpp.Runtime.Action.{Act, pure, ◌>>=◌, assertion}

-- `Context`; `m_scope` is the place of the scope.
pub record Context : Type 0 where
  pub m_name : Element
  pub m_scope : ℕ
  pub m_readonly : Bool

-- `new_hwpp_context(name, scope)`
unfoldable pub new_context : Element → ℕ → Context
new_context n s = record { m_name = n; m_scope = s; m_readonly = false }

unfoldable pub snapshot : Context → Context
snapshot ctxt = record ctxt { m_readonly = true }

-- The stack with the last context, `back()`, first. What else a program changes is the type `W`.
pub record Runtime (W : Type 0) : Type 0 where
  pub m_context_stack : List Context
  pub rest : W

module _ {W : Type 0} where
  unfoldable pub current_context : Act (Runtime W) Context
  current_context r = elim r.m_context_stack [
    | [] ↦ (throw assertion, r)
    | ctxt ∷ below ↦ (ok ctxt, r)
  ]

  unfoldable pub context_snapshot : Act (Runtime W) Context
  unfolding current_context snapshot
  context_snapshot = do ctxt ← current_context; pure (snapshot ctxt)

  unfoldable pub context_push : Context → Act (Runtime W) (Unit {0})
  context_push new r = (ok tt, record r { m_context_stack = new ∷ r.m_context_stack })

  unfoldable pub context_pop : Act (Runtime W) (Unit {0})
  context_pop r = elim r.m_context_stack [
    | [] ↦ (throw assertion, r)
    | top ∷ below ↦
        if ltb 1 (length r.m_context_stack)
        then (ok tt, record r { m_context_stack = below })
        else (throw assertion, r)
  ]
