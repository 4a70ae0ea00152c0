-- ===== src/Api.antt =====
-- apps/api/routes: what a route answers. The framework turns an `HTTPException` into its status
-- code and any other exception into status 500; times in an answer are left out.
pub mod Streams
use mach.Prelude.{ℕ, Exception, Raises, ok, raised}

pub data Response {ℓ} (A : Type ℓ) : Type ℓ where
  answer : A → Response A
  -- `HTTPException(status_code)`
  http_error : ℕ → Response A
  -- Any other exception.
  failure : Exception → Response A

abbrev pub answer_of {ℓ} : {A : Type ℓ} → Raises A → Response A
answer_of (ok a) = answer a
answer_of (raised e) = failure e

infixl 5 ◌>>=◌
abbrev pub ◌>>=◌ {ℓ κ} : {A : Type ℓ} {B : Type κ} → Response A → (A → Response B) → Response B
answer a >>= f = f a
http_error n >>= f = http_error n
failure e >>= f = failure e
