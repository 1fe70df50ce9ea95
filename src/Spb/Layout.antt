-- ===== src/Spb/Layout.antt =====
-- What a described area holds, and what `describe` of crates/spb/src/lib.rs may answer.
use nabu_charger.Prelude.{
  ℕ, ◌+◌, ◌*◌, ◌≤◌, ◌<◌, ◌≡◌, refl, ◌∙◌, inl, inr, ◌⊎◌, Bool, true, false, ◌||◌, not, List, length,
  get_elem?, some, ltb, if◌then◌else◌, arith, Result, ok, err, u32_max,
}
use nabu_charger.Spb.{
  SpbTransferListEntry, Area, write_bytes, write_entries, write_header, area_size, describe,
  SequenceError, area_too_small, too_many_transfers,
}
use nabu_charger.Spb.Bytes.{
  Holds, Laid, write-size, write-other, write-Holds, kept-Holds, same-Holds, entries-other,
  entries-Laid,
}
use mathlib.Core.Path.{subst}

area_size-lower : (n : ℕ) → n ≤ u32_max → 16 + n * 32 ≤ area_size n
area_size-lower n few = ground arith

area_size-header : (n : ℕ) → 48 ≤ area_size n
area_size-header n = ground arith

header-size : (n : ℕ) (a : Area) → (write_header n a).size ≡ a.size
unfolding write_bytes
header-size n a = ground arith

header-other : (n k : ℕ) (a : Area) → 12 ≤ k → (write_header n a).byte k ≡ a.byte k
header-other n k a h =
    write-other 4 8 _ k _ (inr (omega arith))
    ∙ (write-other 4 4 _ k _ (inr (omega arith)) ∙ write-other 4 0 _ k a (inr (omega arith)))

-- The entries leave the bytes of the header as they are.
header-kept :
    (o v : ℕ) (l : List SpbTransferListEntry) (a : Area)
    → o + 4 ≤ 16
    → Holds 4 o v a
    → Holds 4 o v (write_entries 0 l a)
header-kept o v l a low =
    same-Holds 4 o v a (write_entries 0 l a) (λ k g h. entries-other 0 k l a (inl (omega arith)))

-- What a list describes in an area: the header, each entry at its place, and the rest as it was.
pub record Described (l : List SpbTransferListEntry) (before after : Area) : Type 0 where
  pub at_size : Holds 4 0 48 after
  pub at_reserved : Holds 4 4 0 after
  pub at_count : Holds 4 8 (length l) after
  pub at_entry :
      (i : ℕ) (t : SpbTransferListEntry) → get_elem? l i ≡ some t → Laid (16 + i * 32) t after
  pub beyond : (k : ℕ) → area_size (length l) ≤ k → after.byte k ≡ before.byte k

-- An area of the right size and alignment gets the list as the bus driver reads it.
write-Described :
    (l : List SpbTransferListEntry) (a : Area)
    → area_size (length l) ≤ a.size
    → length l ≤ u32_max
    → Described l a (write_entries 0 l (write_header (length l) a))
write-Described l a fits few =
    let n = length l in
    let least = area_size-header n in
    let enough = area_size-lower n few in
    let b = write_header n a in
    let a1 = write_bytes 4 0 48 a in
    let s1 = write-size 4 0 48 a in
    let a2 = write_bytes 4 4 0 a1 in
    let s2 = write-size 4 4 0 a1 in
    let s3 = header-size n a in
    record {
      at_size = header-kept 0 48 l b (omega arith) (
          kept-Holds _ _ _ 4 8 n a2 (inl (omega arith))
            (kept-Holds _ _ _ 4 4 0 a1 (inl (omega arith)) (write-Holds 4 0 48 a (omega arith))));
      at_reserved =
          header-kept 4 0 l b (omega arith)
            (kept-Holds _ _ _ 4 8 n a2 (inl (omega arith)) (write-Holds 4 4 0 a1 (omega arith)));
      at_count = header-kept 8 n l b (omega arith) (write-Holds 4 8 n a2 (omega arith));
      at_entry = λ i t e.
          let place : 0 + i ≡ i = omega arith in
          subst (λ m. Laid (16 + m * 32) t (write_entries 0 l b)) place
            (entries-Laid 0 i l b t (omega arith) e);
      beyond = λ k g. entries-other 0 k l b (inr (omega arith)) ∙ header-other n k a (omega arith);
    }

-- What `describe` may answer: its result and the area it leaves.
pub data Answered (l : List SpbTransferListEntry) (a : Area)
    : Result ℕ SequenceError × Area → Type 0 where
  refused_area :
      (a.size < area_size (length l)) ⊎ (a.aligned ≡ false) → Answered l a (err area_too_small, a)
  refused_count :
      area_size (length l) ≤ a.size
      → a.aligned ≡ true
      → u32_max < length l
      → Answered l a (err too_many_transfers, a)
  laid_out :
      (b : Area)
      → area_size (length l) ≤ a.size
      → a.aligned ≡ true
      → length l ≤ u32_max
      → Described l a b
      → Answered l a (ok (area_size (length l)), b)

-- The answer by the outcomes of the three tests.
answer :
    (l : List SpbTransferListEntry) (a : Area) (small aligned many : Bool)
    → ltb a.size (area_size (length l)) ≡ small
    → a.aligned ≡ aligned
    → ltb u32_max (length l) ≡ many
    → Answered l a (
        if small || not aligned
        then (err area_too_small, a)
        else if many
        then (err too_many_transfers, a)
        else (ok (area_size (length l)), write_entries 0 l (write_header (length l) a)))
answer l a true al many small e f = refused_area (inl (ground arith))
answer l a false false many small e f = refused_area (inr e)
answer l a false true true small e f = refused_count (ground arith) e (ground arith)
answer l a false true false small e f =
    let fits : area_size (length l) ≤ a.size = ground arith in
    let few : length l ≤ u32_max = ground arith in
    laid_out _ fits e few (write-Described l a fits few)

-- A list is refused, with the area as it was, exactly when the area is smaller than the list needs
-- or not aligned, or else the list has more than 4294967295 transfers. Otherwise the answer is the
-- size needed and the area holds, low byte first, the header of 48 bytes with the number of transfers
-- and each transfer at 16 + 32 times its index, field by field; the bytes from the size needed on are
-- as they were.
pub describe-Answered : (l : List SpbTransferListEntry) (a : Area) → Answered l a (describe l a)
unfolding describe
describe-Answered l a = answer l a _ _ _ refl refl refl
