-- ===== src/Io.antt =====
-- `std::io::Error` and fallible results, as the crawler's I/O code uses them.
use new_p2p_crawler.Prelude.{ℕ, Text, Option, none, Bool, true, false}

-- The kinds of `std::io::ErrorKind` that the program creates or tells apart.
pub data ErrorKind : Type 0 where
  timed_out connection_refused connection_reset connection_aborted : ErrorKind
  invalid_data invalid_input unexpected_eof broken_pipe other : ErrorKind

-- An error with its kind, `raw_os_error()` and the text that `to_string()` gives.
pub record IoError : Type 0 where
  pub kind : ErrorKind
  pub raw_os_error : Option ℕ
  pub message : Text

-- `io::Error::new(kind, message)`
abbrev pub io_error : ErrorKind → Text → IoError
io_error kind message = record { kind = kind; raw_os_error = none; message = message }

pub data Result {ℓ κ} (E : Type ℓ) (A : Type κ) : Type (ℓ ⊔ κ) where
  ok : A → Result E A
  err : E → Result E A

infixl 5 ◌>>=◌ ◌>>◌
abbrev pub ◌>>=◌ {ℓ} : {E A B : Type ℓ} → Result E A → (A → Result E B) → Result E B
ok a >>= f = f a
err e >>= f = err e

abbrev pub ◌>>◌ {ℓ} : {E A B : Type ℓ} → Result E A → Result E B → Result E B
m >> k = m >>= λ _. k

abbrev pub IoResult : Type 0 → Type 0
IoResult A = Result IoError A

-- `Result::is_ok`
abbrev pub is_ok : {E A : Type 0} → Result E A → Bool
is_ok (ok a) = true
is_ok (err e) = false

-- `Option::ok_or`
abbrev pub ok_or : {E A : Type 0} → Option A → E → Result E A
ok_or none e = err e
ok_or (Option.some a) e = ok a
