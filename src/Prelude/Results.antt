-- ===== src/Prelude/Results.antt =====
-- src/skk/error.rs, and what a call can do: return, return an error, panic, or exceed its fuel.
use mathlib.Core.Option.{Option, none, some}
use mathlib.Core.Bool.{Bool, true, false}

-- The errors that other crates raise carry no detail here.
pub data SkkError : Type 0 where
  io parse reqwest string json bincode : SkkError
  jisyo_read broken_cache cache_open broken_dictionary command_line encoding request : SkkError

pub data Result {ℓ} (A : Type ℓ) : Type ℓ where
  ok : A → Result A
  err : SkkError → Result A
  panic : Result A
  out_of_fuel : Result A

infixl 5 ◌>>=◌ ◌>>◌
-- `?`: what is not a value ends the call.
abbrev pub ◌>>=◌ {ℓ κ} :
    {Value : Type ℓ} {Next : Type κ} → Result Value → (Value → Result Next) → Result Next
panic >>= next = panic
out_of_fuel >>= next = out_of_fuel
err reason >>= next = err reason
ok value >>= next = next value

abbrev pub ◌>>◌ {κ} : {Next : Type κ} → Result (Unit {0}) → Result Next → Result Next
done >> following = done >>= λ _. following

-- `xs[i]`, `unwrap()`: a missing value panics.
abbrev pub unwrap {ℓ} : {A : Type ℓ} → Option A → Result A
unwrap none = panic
unwrap (some a) = ok a

-- `ok_or(e)`.
abbrev pub ok_or {ℓ} : {A : Type ℓ} → Option A → SkkError → Result A
ok_or none e = err e
ok_or (some a) e = ok a

-- `assert!(b)`.
abbrev pub assert : Bool → Result (Unit {0})
assert true = ok tt
assert false = panic
