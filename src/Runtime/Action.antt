-- ===== src/Runtime/Action.antt =====
-- What an operation of the runtime and of the definition functions does to a state: it returns or
-- throws, and in either case there is a state afterwards.
use hwpp.Prelude.{Bool, true, false, Outcome, ok, throw, undefined}
use hwpp.Scope.{ScopeError, invalid_path}
use hwpp.Datatype.{DatatypeError}
use hwpp.RegBits.{RangeError}

-- ParseError, Path::NotFoundError, what a path or a scope throws (Path::InvalidError is
-- `invalid_path`), RegBits' errors, Driver::IoError, the errors of datatypes, an entry that is not in a
-- container, and a failed assertion.
pub data FkError : Type 0 where
  parse_error not_found io_error out_of_range assertion : FkError
  scope_error : ScopeError → FkError
  range_error : RangeError → FkError
  datatype_error : DatatypeError → FkError

abbrev pub Act : Type 0 → Type 0 → Type 0
Act W A = W → Outcome FkError A × W

-- What follows an operation that returned.
abbrev pub after : {W A B : Type 0} → Outcome FkError A × W → (A → Act W B) → Outcome FkError B × W
after (ok a, w) next = next a w
after (throw e, w) next = (throw e, w)
after (undefined, w) next = (undefined, w)

infixl 5 ◌>>=◌ ◌>>◌
abbrev pub ◌>>=◌ : {W A B : Type 0} → Act W A → (A → Act W B) → Act W B
◌>>=◌ first next w = after (first w) next

abbrev pub ◌>>◌ : {W B : Type 0} → Act W (Unit {0}) → Act W B → Act W B
◌>>◌ first next w = after (first w) (λ _. next)

abbrev pub pure : {W A : Type 0} → A → Act W A
pure a w = (ok a, w)

abbrev pub raise : {W A : Type 0} → FkError → Act W A
raise e w = (throw e, w)

-- `DASSERT`
abbrev pub dassert : {W : Type 0} → Bool → Act W (Unit {0})
dassert true w = (ok tt, w)
dassert false w = (throw assertion, w)

-- An operation that has its own errors and no state.
abbrev pub lift : {W E A : Type 0} → (E → FkError) → Outcome E A → Act W A
lift wrap (ok a) w = (ok a, w)
lift wrap (throw e) w = (throw (wrap e), w)
lift wrap undefined w = (undefined, w)

-- `catch (Path::InvalidError &e) { throw ParseError(e.what(), loc); }`
abbrev pub caught : FkError → FkError
caught (scope_error invalid_path) = parse_error
caught e = e

abbrev pub rethrow : {W A : Type 0} → Outcome FkError A × W → Outcome FkError A × W
rethrow (ok a, w) = (ok a, w)
rethrow (throw e, w) = (throw (caught e), w)
rethrow (undefined, w) = (undefined, w)

abbrev pub catching : {W A : Type 0} → Act W A → Act W A
catching act w = rethrow (act w)
