-- ===== src/Ln8000/Pump/Yields.antt =====
-- What a method that succeeds returns, and in which state it leaves the pump.
use mathlib.Core.Path.{subst}
use nabu_charger.Prelude.{◌≡◌, refl, Bool, true, false, Result, ok, err, arith}
use nabu_charger.Ln8000.Error.{PumpError}
use nabu_charger.Ln8000.Mode.{OpMode, mode_eq}
use nabu_charger.Ln8000.Pump.{Pump, Op, next, ◌>>=◌, pure, fail, branch}

-- The condition on a success; a failure owes nothing.
abbrev pub Post : {B A : Type 0} → (A → Pump B → Type 0) → Result A PumpError × Pump B → Type 0
Post P (ok a, q) = P a q
Post P (err e, q) = Unit

pub record Yields {B A : Type 0} (m : Op B A) (P : A → Pump B → Type 0) : Type 0 where
  pub yields : (p : Pump B) → Post P (m p)

module _ {B A C : Type 0} (P : C → Pump B → Type 0) (f : A → Op B C) where
  next-Post :
      (Q : A → Pump B → Type 0)
      → ((a : A) (q : Pump B) → Q a q → Post P (f a q))
      → (o : Result A PumpError × Pump B) → Post Q o
      → Post P (next f o)
  next-Post Q h (ok a, q) k = h a q k
  next-Post Q h (err e, q) k = tt

  -- A chain, with what its first part yields.
  pub chain-Yields :
      (Q : A → Pump B → Type 0) (m : Op B A)
      → Yields m Q
      → ((a : A) (q : Pump B) → Q a q → Post P (f a q))
      → Yields (m >>= f) P
  unfolding ◌>>=◌
  chain-Yields Q m k h = record { yields = λ p. next-Post Q h (m p) (k.yields p) }

  next_any-Post : ((a : A) → Yields (f a) P) → (o : Result A PumpError × Pump B) → Post P (next f o)
  next_any-Post h (ok a, q) = (h a).yields q
  next_any-Post h (err e, q) = tt

  -- A chain in which only the last part matters.
  pub bind-Yields : (m : Op B A) → ((a : A) → Yields (f a) P) → Yields (m >>= f) P
  unfolding ◌>>=◌
  bind-Yields m h = record { yields = λ p. next_any-Post h (m p) }

module _ {B A : Type 0} (P : A → Pump B → Type 0) where
  pub fail-Yields : (e : PumpError) → Yields (fail e) P
  fail-Yields e = record { yields = λ p. tt }

  pub pure-Yields : (a : A) → ((q : Pump B) → P a q) → Yields (pure a) P
  pure-Yields a h = record { yields = h }

  pub branch-Post :
      (b : Bool) (m k : Op B A) (q : Pump B)
      → (b ≡ true → Post P (m q))
      → Post P (k q)
      → Post P (branch b m k q)
  unfolding branch
  branch-Post true m k q h l = h refl
  branch-Post false m k q h l = l

  pub branch-Yields :
      (b : Bool) (m k : Op B A) → (b ≡ true → Yields m P) → Yields k P → Yields (branch b m k) P
  unfolding branch
  branch-Yields true m k h l = h refl
  branch-Yields false m k h l = l

pub mode_eq_sound : (a b : OpMode) → mode_eq a b ≡ true → a ≡ b
mode_eq_sound a b e = ground arith

pub claimed :
    {B A : Type 0} (P : A → Pump B → Type 0) (o : Result A PumpError × Pump B) (a : A) (q : Pump B)
    → Post P o
    → o ≡ (ok a, q)
    → P a q
claimed P o a q h e = subst (λ x. Post P x) e h

-- Whatever holds anyway holds of every success.
always :
    {B A P : Type 0} → P → (o : Result A PumpError × Pump B) → Post {B = B} {A = A} (λ a q. P) o
always h (ok a, q) = h
always h (err e, q) = tt

pub always-Yields : {B A P : Type 0} (m : Op B A) → P → Yields m (λ a q. P)
always-Yields m h = record { yields = λ p. always h (m p) }
