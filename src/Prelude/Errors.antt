-- ===== src/Prelude/Errors.antt =====
-- Go's `error` values, results that may panic, and calls that change the outside world.
use Prim.Native.String.{String}
use mathlib.Core.Bool.{Bool, false}
use text.Mathlib.Text.{◌==◌}
use mathlib.Core.Option.{Option, none, some}

-- The error types that the code tells apart by a type switch or by identity; `other` is an error
-- of no such type. A message is kept as the part of it that does not depend on the arguments.
pub data Error : Type 0 where
  other : String → Error
  -- a message with the error that it wraps
  wrapped : String → Error → Error
  -- boshdirector.RequestError
  request_error : String → Error
  -- broker.DisplayableError: for the CF user, and for the operator
  displayable : Error → Error → Error
  -- both messages in one error of no type of its own: for the CF user, and for the operator
  extended : Error → Error → Error
  -- *apiresponses.FailureResponse, by its error key
  failure_response : String → Error
  -- a type of one error, such as broker.TaskInProgressError or cf.ResourceNotFoundError, by name
  typed : String → Error → Error

-- A case of a type switch, for a type named by `typed`.
abbrev pub has_type : String → Error → Bool
has_type name (typed type_name e) = type_name == name
has_type name _ = false

pub data Result {ℓ} (A : Type ℓ) : Type ℓ where
  ok : A → Result A
  err : Error → Result A
  -- an index out of range or another runtime panic
  panic : Result A

-- A call returns its result and the world after it.
abbrev pub Io {ℓ} : Type 0 → Type ℓ → Type ℓ
Io W A = W → Result A × W

module _ {ℓ κ} {W : Type 0} {A : Type ℓ} {B : Type κ} where
  abbrev pub next : (A → Io W B) → Result A × W → Result B × W
  next f (ok a, w) = f a w
  next f (err e, w) = (err e, w)
  next f (panic, w) = (panic, w)

-- `abbrev`, so that a chain of calls computes wherever it stands.
infixl 5 ◌>>=◌ ◌>>◌
abbrev pub ◌>>=◌ {ℓ κ} : {W : Type 0} {A : Type ℓ} {B : Type κ} → Io W A → (A → Io W B) → Io W B
◌>>=◌ m f w = next f (m w)

abbrev pub ◌>>◌ {ℓ κ} : {W : Type 0} {A : Type ℓ} {B : Type κ} → Io W A → Io W B → Io W B
m >> k = m >>= λ _. k

abbrev pub pure {ℓ} : {W : Type 0} {A : Type ℓ} → A → Io W A
pure a w = (ok a, w)

abbrev pub fail {ℓ} : {W : Type 0} {A : Type ℓ} → Error → Io W A
fail e w = (err e, w)

-- A call, with what follows on an error and on success.
module _ {ℓ κ} {W : Type 0} {A : Type ℓ} {B : Type κ} where
  abbrev pub follow : (Error → Io W B) → (A → Io W B) → Result A × W → Result B × W
  follow h f (ok a, w) = f a w
  follow h f (err e, w) = h e w
  follow h f (panic, w) = (panic, w)

abbrev pub try {ℓ κ} :
    {W : Type 0} {A : Type ℓ} {B : Type κ} → Io W A → (Error → Io W B) → (A → Io W B) → Io W B
try m h f w = follow h f (m w)

-- An index into a slice panics out of range.
abbrev pub or_panic {ℓ} : {W : Type 0} {A : Type ℓ} → Option A → Io W A
or_panic none w = (panic, w)
or_panic (some a) w = (ok a, w)
