-- ===== src/Prelude/Methods/Keeps.antt =====
-- Properties of the state that a method keeps, whether it succeeds or fails.
use nabu_charger.Prelude.{Bool, true, false, Result, ok, err}
use nabu_charger.Prelude.Methods.{
  Method, pure, throw, lift, gets, attempt, branch, handled, rescue, modify, next, ◌>>=◌,
}

pub record Keeps {S E A : Type 0} (P : S → Type 0) (m : Method S E A) : Type 0 where
  pub keeps : (s : S) → P s → P (m s).1

module _ {S E A C : Type 0} {P : S → Type 0} (f : A → Method S E C) where
  next-Keeps : ((a : A) → Keeps P (f a)) → (o : Result A E × S) → P o.1 → P (next f o).1
  next-Keeps h (ok a, s) p = (h a).keeps s p
  next-Keeps h (err e, s) p = p

  pub bind-Keeps : (m : Method S E A) → Keeps P m → ((a : A) → Keeps P (f a)) → Keeps P (m >>= f)
  unfolding ◌>>=◌
  bind-Keeps m k h = record { keeps = λ s p. next-Keeps h (m s) (k.keeps s p) }

module _ {S E A : Type 0} {P : S → Type 0} where
  handled-Keeps :
      (f : E → Method S E A)
      → ((e : E) → Keeps P (f e))
      → (o : Result A E × S) → P o.1
      → P (handled f o).1
  handled-Keeps f h (ok a, s) p = p
  handled-Keeps f h (err e, s) p = (h e).keeps s p

  pub rescue-Keeps :
      (m : Method S E A) (f : E → Method S E A)
      → Keeps P m
      → ((e : E) → Keeps P (f e))
      → Keeps P (rescue m f)
  unfolding rescue
  rescue-Keeps m f k h = record { keeps = λ s p. handled-Keeps f h (m s) (k.keeps s p) }

  pub branch-Keeps :
      (b : Bool) (m k : Method S E A) → Keeps P m → Keeps P k → Keeps P (branch b m k)
  unfolding branch
  branch-Keeps true m k g h = g
  branch-Keeps false m k g h = h

  pub pure-Keeps : (a : A) → Keeps {E = E} P (pure a)
  pure-Keeps a = record { keeps = λ s p. p }

  pub throw-Keeps : (e : E) → Keeps {A = A} P (throw e)
  throw-Keeps e = record { keeps = λ s p. p }

  pub lift-Keeps : (r : Result A E) → Keeps P (lift r)
  lift-Keeps r = record { keeps = λ s p. p }

  pub gets-Keeps : (f : S → A) → Keeps {E = E} P (gets f)
  gets-Keeps f = record { keeps = λ s p. p }

  pub attempt-Keeps : (m : Method S E A) → Keeps P m → Keeps P (attempt m)
  attempt-Keeps m k = record { keeps = k.keeps }

pub modify-Keeps :
    {S E : Type 0} {P : S → Type 0} (f : S → S)
    → ((s : S) → P s → P (f s))
    → Keeps {E = E} P (modify f)
modify-Keeps f h = record { keeps = h }

pub ruleset keeps_rules = (
  bind-Keeps, rescue-Keeps, branch-Keeps, pure-Keeps, throw-Keeps, lift-Keeps, gets-Keeps,
  attempt-Keeps,
)
