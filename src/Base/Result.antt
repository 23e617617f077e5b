-- ===== src/Base/Result.antt =====
-- `io::Result`: a value, or the kind of the error.
use mathlib.Core.Bool.{Bool, true, false}
use mathlib.Core.Option.{Option, none, some}

-- `io::ErrorKind`, and `other` for an error of the program's own.
pub data ErrorKind : Type 0 where
  unexpected_eof invalid_data invalid_input permission_denied other : ErrorKind

pub data Result (A : Type 0) : Type 0 where
  ok : A → Result A
  err : ErrorKind → Result A

infixl 5 ◌>>=◌ ◌>>◌
abbrev pub ◌>>=◌ : {A B : Type 0} → Result A → (A → Result B) → Result B
ok a >>= f = f a
err e >>= f = err e

abbrev pub ◌>>◌ : {B : Type 0} → Result (Unit {0}) → Result B → Result B
ok u >> k = k
err e >> k = err e

abbrev pub ok_or : {A : Type 0} → Option A → ErrorKind → Result A
ok_or (some a) e = ok a
ok_or none e = err e

-- Goes on if the test holds.
abbrev pub ensure : Bool → ErrorKind → Result (Unit {0})
ensure true e = ok tt
ensure false e = err e
