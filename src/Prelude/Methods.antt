-- ===== src/Prelude/Methods.antt =====
-- Methods on a mutable state that may fail: what was done to the state stays done on a failure.
pub mod Keeps
pub mod Ends
pub mod Sure
use nabu_charger.Prelude.{Bool, true, false, Result, ok, err}

abbrev pub Method : Type 0 → Type 0 → Type 0 → Type 0
Method S E A = S → Result A E × S

module _ {S E A : Type 0} where
  abbrev pub pure : A → Method S E A
  pure a s = (ok a, s)

  abbrev pub throw : E → Method S E A
  throw e s = (err e, s)

  -- A pure fallible call under `?`.
  abbrev pub lift : Result A E → Method S E A
  lift r s = (r, s)

  abbrev pub gets : (S → A) → Method S E A
  gets f s = (ok (f s), s)

  -- The outcome kept for later: what follows is done whether it is a failure or not.
  abbrev pub attempt : Method S E A → Method S E (Result A E)
  attempt m s = (ok (m s).0, (m s).1)

  -- `if c { m } else { k }` on methods.
  unfoldable pub branch : Bool → Method S E A → Method S E A → Method S E A
  branch true m k = m
  branch false m k = k

  abbrev pub handled : (E → Method S E A) → Result A E × S → Result A E × S
  handled f (ok a, s) = (ok a, s)
  handled f (err e, s) = f e s

  -- `match m { Ok(a) => a, Err(err) => return … }`
  unfoldable pub rescue : Method S E A → (E → Method S E A) → Method S E A
  rescue m f s = handled f (m s)

abbrev pub modify : {S E : Type 0} → (S → S) → Method S E Unit
modify f s = (ok tt, f s)

-- What follows a success; a failure passes by (`?`).
abbrev pub next : {S E A C : Type 0} → (A → Method S E C) → Result A E × S → Result C E × S
next f (ok a, s) = f a s
next f (err e, s) = (err e, s)

infixl 5 ◌>>=◌ ◌>>◌
unfoldable pub ◌>>=◌ : {S E A C : Type 0} → Method S E A → (A → Method S E C) → Method S E C
◌>>=◌ m f s = next f (m s)

abbrev pub ◌>>◌ : {S E A C : Type 0} → Method S E A → Method S E C → Method S E C
m >> k = m >>= λ _. k
