-- ===== src/Ln8000/Pump/Access.antt =====
-- Every register access is contained: it cannot reach the settings or the known mode.
use Prim.Native.String.{String}
use nabu_charger.Prelude.{ℕ, ◌≡◌, refl, ◌∙◌, Bool, true, false, Result, ok, err, ◌==◌}
use nabu_charger.Ln8000.Error.{PumpError}
use nabu_charger.Ln8000.Bus.{RegisterBus, merge}
use nabu_charger.Ln8000.Pump.{
  Pump, Op, next, ◌>>=◌, read, read_pair, write, expect, read_back, verify, update, write_verified,
  count_reads, count_write,
}
use nabu_charger.Ln8000.Pump.Retry.{Kept, Contained, retry-Contained}

pub Kept-trans : {B : Type 0} (p q r : Pump B) → Kept p q → Kept q r → Kept p r
Kept-trans p q r (a, b, c, d) (e, f, g, h) = (e ∙ a, f ∙ b, g ∙ c, h ∙ d)

pub Contained-Kept :
    {B A : Type 0} (p : Pump B) (o : Result A PumpError × Pump B) → Contained p o → Kept p o.1
Contained-Kept p (ok a, q) (k, s) = k
Contained-Kept p (err e, q) (k, s) = k

Contained-after :
    {B A : Type 0} (p q : Pump B) (o : Result A PumpError × Pump B)
    → Kept p q
    → q.state ≡ p.state
    → Contained q o
    → Contained p o
Contained-after p q (ok a, r) k s (l, t) = (Kept-trans p q r k l, t ∙ s)
Contained-after p q (err e, r) k s (l, t) = (Kept-trans p q r k l, t)

module _ {B A C : Type 0} where
  pub next-Contained :
      (p : Pump B) (f : A → Op B C) (o : Result A PumpError × Pump B)
      → Contained p o
      → ((a : A) (q : Pump B) → Contained q (f a q))
      → Contained p (next f o)
  next-Contained p f (ok a, q) (k, s) h = Contained-after p q (f a q) k s (h a q)
  next-Contained p f (err e, q) c h = c

module _ {B : Type 0} (io : RegisterBus B) where
  pub read-Contained : (addr : ℕ) (p : Pump B) → Contained p (read io addr p)
  unfolding read
  read-Contained addr p =
      retry-Contained io (count_reads io 1) (λ q. ((refl, refl, refl, refl), refl))
        (io.read_byte addr) p.config.max_bus_retries p

  pub read_pair-Contained : (addr : ℕ) (p : Pump B) → Contained p (read_pair io addr p)
  unfolding read_pair
  read_pair-Contained addr p =
      retry-Contained io (count_reads io 2) (λ q. ((refl, refl, refl, refl), refl))
        (io.read_word addr) p.config.max_bus_retries p

  pub write-Contained : (addr value : ℕ) (p : Pump B) → Contained p (write io addr value p)
  unfolding write
  write-Contained addr value p =
      retry-Contained io (count_write io) (λ q. ((refl, refl, refl, refl), refl))
        (io.write_byte addr value) p.config.max_bus_retries p

  expect-Contained :
      (b : Bool) (field : String) (requested : ℕ) (p : Pump B)
      → Contained p (expect io b field requested p)
  expect-Contained true field requested p = ((refl, refl, refl, refl), refl)
  expect-Contained false field requested p = ((refl, refl, refl, refl), refl)

  read_back-Contained :
      (b : Bool) (addr value : ℕ) (field : String) (p : Pump B)
      → Contained p (read_back io b addr value field p)
  unfolding ◌>>=◌
  read_back-Contained true addr value field p =
      next-Contained p (λ got. expect io (got == value) field value) (read io addr p)
        (read-Contained addr p) (λ got q. expect-Contained (got == value) field value q)
  read_back-Contained false addr value field p = ((refl, refl, refl, refl), refl)

  verify-Contained :
      (addr value : ℕ) (field : String) (p : Pump B) → Contained p (verify io addr value field p)
  unfolding verify
  verify-Contained addr value field p =
      read_back-Contained p.config.verify_writes addr value field p

  -- A masked register update changes nothing of the session but the counters and, when it fails,
  -- the state, which is then `faulted`; when it succeeds the state is as it was.
  pub update-Contained :
      (addr mask value : ℕ) (field : String) (p : Pump B)
      → Contained p (update io addr mask value field p)
  unfolding update ◌>>=◌
  update-Contained addr mask value field p =
      next-Contained p _ (read io addr p) (read-Contained addr p) (λ current q.
        next-Contained q _ (write io addr (merge current mask value) q)
          (write-Contained addr (merge current mask value) q)
          (λ done. verify-Contained addr (merge current mask value) field))

  pub write_verified-Contained :
      (addr value : ℕ) (field : String) (p : Pump B)
      → Contained p (write_verified io addr value field p)
  unfolding write_verified ◌>>=◌
  write_verified-Contained addr value field p =
      next-Contained p _ (write io addr value p) (write-Contained addr value p)
        (λ done. verify-Contained addr value field)
