-- ===== src/Ln8000/Pump/Ideal.antt =====
-- Register access on an ideal chip: a method as the list of the register edits that it makes.
pub mod Setup
pub mod Configured
use Prim.Native.String.{String}
use mathlib.Core.Path.{subst}
use nabu_charger.Prelude.{
  ℕ, zero, suc, ◌≡◌, refl, sym, ap, ◌∙◌, Bool, true, false, List, [], ◌∷◌, ◌++◌, Result, ok, err,
  ◌==◌, if◌then◌else◌, ==_iff, arith,
}
use nabu_charger.Ln8000.Error.{PumpError}
use nabu_charger.Ln8000.Bus.{RegisterBus, merge}
use nabu_charger.Ln8000.Bus.Memory.{Image, memory, put}
use nabu_charger.Ln8000.Config.{PumpConfig}
use nabu_charger.Ln8000.Pump.{
  Pump, PumpState, Op, next, ◌>>=◌, ◌>>◌, gets, lift, modify, require_open, is_closed, retry, read,
  write, verify, update, write_verified, count_reads, count_write, read_back,
}

-- A masked update of a register, or a whole write.
pub data Edit : Type 0 where
  masked : ℕ → ℕ → ℕ → Edit
  whole : ℕ → ℕ → Edit

abbrev pub edit : Edit → Image → Image
edit (masked addr mask value) image = put addr (merge (image addr) mask value) image
edit (whole addr value) image = put addr value image

abbrev pub edits : List Edit → Image → Image
edits [] image = image
edits (e ∷ l) image = edits l (edit e image)

-- The method succeeded, the image is the edited one, the settings are kept, the session is open.
abbrev pub Edited : List Edit → Pump Image → Result Unit PumpError × Pump Image → Type 0
Edited l p (ok a, q) = (q.bus ≡ edits l p.bus) × (q.config ≡ p.config) × (is_closed q.state ≡ false)
Edited l p (err e, q) = ⊥

-- With the settings `c`, on an open session.
pub record Sets (c : PumpConfig) (m : Op Image Unit) (l : List Edit) : Type 0 where
  pub ends : (p : Pump Image) → p.config ≡ c → is_closed p.state ≡ false → Edited l p (m p)

retry_read :
    (addr n : ℕ) (p : Pump Image)
    → retry memory (memory.read_byte addr) (count_reads memory 1) n p
      ≡ (ok (p.bus addr), count_reads memory 1 p)
unfolding retry
retry_read addr zero p = refl
retry_read addr (suc n) p = refl

read-memory :
    (addr : ℕ) (p : Pump Image) → read memory addr p ≡ (ok (p.bus addr), count_reads memory 1 p)
unfolding read
read-memory addr p = retry_read addr p.config.max_bus_retries p

retry_write :
    (addr value n : ℕ) (p : Pump Image)
    → retry memory (memory.write_byte addr value) (count_write memory) n p
      ≡ (ok tt, count_write memory (record p { bus = put addr value p.bus }))
unfolding retry
retry_write addr value zero p = refl
retry_write addr value (suc n) p = refl

write-memory :
    (addr value : ℕ) (p : Pump Image)
    → write memory addr value p
      ≡ (ok tt, count_write memory (record p { bus = put addr value p.bus }))
unfolding write
write-memory addr value p = retry_write addr value p.config.max_bus_retries p

put_same : (addr value : ℕ) (image : Image) → put addr value image addr ≡ value
put_same addr value image = ground arith

-- What was written reads back.
read_back-memory :
    (b : Bool) (addr value : ℕ) (field : String) (p : Pump Image)
    → p.bus addr ≡ value
    → is_closed p.state ≡ false
    → Edited [] p (read_back memory b addr value field p)
unfolding ◌>>=◌
read_back-memory false addr value field p e o = (refl, refl, o)
read_back-memory true addr value field p e o =
    let same : (p.bus addr == value) ≡ true = (==_iff (p.bus addr) value).1 e in
    rw (read-memory addr p, same) (refl, refl, o)

verify-memory :
    (addr value : ℕ) (field : String) (p : Pump Image)
    → p.bus addr ≡ value
    → is_closed p.state ≡ false
    → Edited [] p (verify memory addr value field p)
unfolding verify
verify-memory addr value field p = read_back-memory p.config.verify_writes addr value field p

-- An outcome that edits nothing, seen from a pump of the same settings.
relay :
    (l : List Edit) (p q : Pump Image) (o : Result Unit PumpError × Pump Image)
    → q.bus ≡ edits l p.bus
    → q.config ≡ p.config
    → Edited [] q o
    → Edited l p o
relay l p q (ok a, r) b c (d, e, f) = (d ∙ b, e ∙ c, f)
relay l p q (err e, r) b c x = x

written :
    (addr value : ℕ) (field : String) (l : List Edit) (p q : Pump Image)
    → put addr value q.bus ≡ edits l p.bus
    → q.config ≡ p.config
    → is_closed q.state ≡ false
    → Edited l p ((write memory addr value >> verify memory addr value field) q)
unfolding ◌>>=◌
written addr value field l p q b c o =
    let r = count_write memory (record q { bus = put addr value q.bus }) in
    rw (write-memory addr value q) (
      relay l p r (verify memory addr value field r) b c
        (verify-memory addr value field r (put_same addr value q.bus) o))

edits-append : (l m : List Edit) (image : Image) → edits m (edits l image) ≡ edits (l ++ m) image
edits-append [] m image = refl
edits-append (e ∷ l) m image = edits-append l m (edit e image)

onward :
    (l m : List Edit) (p q : Pump Image) (o : Result Unit PumpError × Pump Image)
    → q.bus ≡ edits l p.bus
    → q.config ≡ p.config
    → Edited m q o
    → Edited (l ++ m) p o
onward l m p q (ok a, r) b k (d, e, f) =
    (d ∙ ap (λ i. edits m i) b ∙ edits-append l m p.bus, e ∙ k, f)
onward l m p q (err e, r) b k x = x

module _ {c : PumpConfig} where
  pub update-Sets :
      (addr mask value : ℕ) (field : String)
      → Sets c (update memory addr mask value field) (masked addr mask value ∷ [])
  unfolding update ◌>>=◌
  update-Sets addr mask value field = record {
    ends = λ p same o. rw (read-memory addr p) (
        written addr (merge (p.bus addr) mask value) field (masked addr mask value ∷ []) p
          (count_reads memory 1 p) refl refl o);
  }

  pub write_verified-Sets :
      (addr value : ℕ) (field : String)
      → Sets c (write_verified memory addr value field) (whole addr value ∷ [])
  unfolding write_verified
  write_verified-Sets addr value field = record {
    ends = λ p same o. written addr value field (whole addr value ∷ []) p p refl refl o;
  }

  next-Edited :
      (k : Op Image Unit) (l m : List Edit) (p : Pump Image)
      (o : Result Unit PumpError × Pump Image)
      → p.config ≡ c
      → Sets c k m
      → Edited l p o
      → Edited (l ++ m) p (next (λ a. k) o)
  next-Edited k l m p (ok a, q) e h (b, same, o) =
      onward l m p q (k q) b same (h.ends q (same ∙ e) o)
  next-Edited k l m p (err x, q) e h bad = bad

  -- Methods one after the other make their edits one after the other.
  pub seq-Sets :
      (m k : Op Image Unit) (l n : List Edit) → Sets c m l → Sets c k n → Sets c (m >> k) (l ++ n)
  unfolding ◌>>=◌
  seq-Sets m k l n a b = record { ends = λ p e o. next-Edited k l n p (m p) e b (a.ends p e o) }

  pub gets-Sets :
      (k : PumpConfig → Op Image Unit) (l : List Edit)
      → Sets c (k c) l
      → Sets c (gets (λ p. p.config) >>= k) l
  unfolding ◌>>=◌
  gets-Sets k l h = record {
    ends = λ p e o. subst (λ d. Edited l p (k d p)) (sym e) (h.ends p e o);
  }

  pub lift-Sets :
      {A : Type 0} (r : Result A PumpError) (a : A) (k : A → Op Image Unit) (l : List Edit)
      → r ≡ ok a
      → Sets c (k a) l
      → Sets c (lift r >>= k) l
  unfolding ◌>>=◌
  lift-Sets r a k l f h = record { ends = λ p e o. rw f (h.ends p e o) }

  pub require_open-Sets : Sets c require_open []
  require_open-Sets = record { ends = λ p e o. rw o (refl, refl, o) }

  pub modify-Sets :
      (f : Pump Image → Pump Image)
      → ((p : Pump Image) → (f p).bus ≡ p.bus)
      → ((p : Pump Image) → (f p).config ≡ p.config)
      → ((p : Pump Image) → is_closed p.state ≡ false → is_closed (f p).state ≡ false)
      → Sets c (modify f) []
  modify-Sets f b k o = record { ends = λ p e h. (b p, k p, o p h) }
