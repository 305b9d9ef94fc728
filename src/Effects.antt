-- ===== src/Effects.antt =====
-- How the functions of core/ end, as values: the error class of core/errors.hpp, and a monad for
-- the methods that change an object and may fail.
use toocal.Prelude.{ℕ, List, Option, none, some}

-- `errors::Error`, by its message: the text of `errno`, or the text of the one formatted message.
pub data Error : Type 0 where
  io_error : Error
  key_not_found : List ℕ → Error

-- A call on an object in the state `S`: it returns a value and the new state, or an error
-- (`tl::unexpected`), or ends the process (`panic`, `fatal`), or accesses an object out of its
-- bounds. `out_of_fuel` is no outcome of the program: the rounds given to a loop were too few.
pub data Outcome (S A : Type 0) : Type 0 where
  ok : A → S → Outcome S A
  err : Error → S → Outcome S A
  terminated : Outcome S A
  undefined_behavior : Outcome S A
  out_of_fuel : Outcome S A

abbrev pub M : Type 0 → Type 0 → Type 0
M S A = S → Outcome S A

module _ {S : Type 0} where
  abbrev pub pure : {A : Type 0} → A → M S A
  pure a s = ok a s

  abbrev pub fail : {A : Type 0} → Error → M S A
  fail e s = err e s

  abbrev pub terminate : {A : Type 0} → M S A
  terminate s = terminated

  abbrev pub stuck : {A : Type 0} → M S A
  stuck s = out_of_fuel

  -- Goes on with a result, and passes any other end on: `and_then`, and `map`.
  abbrev pub continue : {A B : Type 0} → Outcome S A → (A → M S B) → Outcome S B
  continue (ok a s) f = f a s
  continue (err e s) f = err e s
  continue terminated f = terminated
  continue undefined_behavior f = undefined_behavior
  continue out_of_fuel f = out_of_fuel

  infixl 5 ◌>>=◌ ◌>>◌
  abbrev pub ◌>>=◌ : {A B : Type 0} → M S A → (A → M S B) → M S B
  ◌>>=◌ m f s = continue (m s) f

  abbrev pub ◌>>◌ : {A B : Type 0} → M S A → M S B → M S B
  m >> k = m >>= λ _. k

  abbrev recover : {A : Type 0} → Outcome S A → Outcome S (Option A)
  recover (ok a s) = ok (some a) s
  recover (err e s) = ok none s
  recover terminated = terminated
  recover undefined_behavior = undefined_behavior
  recover out_of_fuel = out_of_fuel

  -- A result whose error nobody looks at.
  abbrev pub attempt : {A : Type 0} → M S A → M S (Option A)
  attempt m s = recover (m s)

  abbrev end_on_error : {A : Type 0} → Outcome S A → Outcome S A
  end_on_error (err e s) = terminated
  end_on_error (ok a s) = ok a s
  end_on_error terminated = terminated
  end_on_error undefined_behavior = undefined_behavior
  end_on_error out_of_fuel = out_of_fuel

  -- `map_error([&](auto&& error) { …; return error.panic(); })`
  abbrev pub or_panic : {A : Type 0} → M S A → M S A
  or_panic m s = end_on_error (m s)

  -- An access that is undefined where it is out of bounds.
  abbrev pub defined : {A : Type 0} → Option A → M S A
  defined none s = undefined_behavior
  defined (some a) s = ok a s

  abbrev pub get : M S S
  get s = ok s s

  abbrev pub put_state : S → M S (Unit {0})
  put_state s' s = ok tt s'
