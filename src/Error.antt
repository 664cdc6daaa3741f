-- ===== src/Error.antt =====
-- src/core/error.rs: the crate's error type and its conversion from I/O errors; `Result` and `?`.
-- A message is the list of pieces that its `format!` joins: literal text, and numbers.
use sfo_reuseport.Prelude.{ℕ, String, Bool, true, false, List, [], ◌∷◌, Option, none, some, ◌≡◌}

pub data Piece : Type 0 where
  lit : String → Piece
  num : ℕ → Piece

abbrev pub Message : Type 0
Message = List Piece

abbrev pub text : String → Message
text s = lit s ∷ []

-- `std::io::ErrorKind`: the kinds that the crate tests or raises, and the rest by a number.
pub data ErrorKind : Type 0 where
  permission_denied would_block timed_out invalid_data invalid_input : ErrorKind
  unexpected_eof unsupported broken_pipe not_found : ErrorKind
  other : ℕ → ErrorKind

pub record IoError : Type 0 where
  pub kind : ErrorKind
  pub message : Message

pub data Error : Type 0 where
  invalid_config : Message → Error
  unsupported_platform_option : Message → Error
  permission_denied : Message → Error
  socket_init_callback : Message → Error
  socket : IoError → Error
  runtime : Message → Error
  handler : Message → Error

abbrev pub is_permission_denied : ErrorKind → Bool
is_permission_denied ErrorKind.permission_denied = true
is_permission_denied _ = false

-- `Error::socket`, which is also `From<io::Error>`.
unfoldable pub from_io : IoError → Error
from_io e = elim (is_permission_denied e.kind) [
  | true ↦ Error.permission_denied e.message
  | false ↦ Error.socket e
]

-- `Display`.
unfoldable pub fmt : Error → Message
fmt (invalid_config m) = lit "invalid config: " ∷ m
fmt (unsupported_platform_option m) = lit "unsupported platform option: " ∷ m
fmt (Error.permission_denied m) = lit "permission denied: " ∷ m
fmt (socket_init_callback m) = lit "socket init callback error: " ∷ m
fmt (socket e) = lit "socket error: " ∷ e.message
fmt (runtime m) = lit "runtime error: " ∷ m
fmt (handler m) = lit "handler error: " ∷ m

-- `std::error::Error::source`.
unfoldable pub source : Error → Option IoError
source (socket e) = some e
source _ = none

pub data Result {ℓ} (E : Type 0) (A : Type ℓ) : Type ℓ where
  ok : A → Result E A
  err : E → Result E A

infixl 5 ◌>>=◌ ◌>>◌
abbrev pub ◌>>=◌ {ℓ κ} :
    {E : Type 0} {A : Type ℓ} {B : Type κ} → Result E A → (A → Result E B) → Result E B
ok a >>= f = f a
err e >>= f = err e

abbrev pub ◌>>◌ {ℓ} : {E : Type 0} {B : Type ℓ} → Result E (Unit {0}) → Result E B → Result E B
m >> k = m >>= λ _. k

-- `.map_err(f)`.
abbrev pub map_err {ℓ} : {E F : Type 0} {A : Type ℓ} → (E → F) → Result E A → Result F A
map_err f (ok a) = ok a
map_err f (err e) = err (f e)

-- `.ok()` and `.is_ok()`.
abbrev pub to_option {ℓ} : {E : Type 0} {A : Type ℓ} → Result E A → Option A
to_option (ok a) = some a
to_option (err e) = none

abbrev pub is_ok {ℓ} : {E : Type 0} {A : Type ℓ} → Result E A → Bool
is_ok (ok a) = true
is_ok (err e) = false

-- A successful result, with a property of its value.
abbrev pub Returns {ℓ κ} : {E : Type 0} {A : Type ℓ} → Result E A → (A → Type κ) → Type (ℓ ⊔ κ)
Returns {A} r P = (a : A) × (r ≡ ok a) × P a
