-- ===== src/Spb/Bytes.antt =====
-- What the writes of crates/spb/src/lib.rs leave in an area: values and entries, byte by byte.
use nabu_charger.Prelude.{
  ℕ, zero, suc, ◌+◌, ◌-◌, ◌*◌, ◌/◌, ◌%◌, ◌^◌, ◌≤◌, ◌<◌, ◌≡◌, refl, sym, ap, ◌∙◌, inl, ◌⊎◌, List, [],
  ◌∷◌, length, get_elem?, some, arith,
}
use nabu_charger.Spb.{SpbTransferListEntry, Area, write_bytes, write_entry, write_entries}
use mathlib.Core.Path.{subst}

-- The bytes of a value at an offset, the low one first.
abbrev pub Holds : ℕ → ℕ → ℕ → Area → Type 0
Holds width offset value area = (j : ℕ) → j < width → area.byte (offset + j) ≡ value / 256 ^ j % 256

pub write-size : (w o v : ℕ) (a : Area) → (write_bytes w o v a).size ≡ a.size
unfolding write_bytes
write-size w o v a = ground arith

pub write-other :
    (w o v k : ℕ) (a : Area) → (k < o) ⊎ (o + w ≤ k) → (write_bytes w o v a).byte k ≡ a.byte k
unfolding write_bytes
write-other w o v k a h = ground arith

write-inside :
    (w o v k : ℕ) (a : Area)
    → o + w ≤ a.size
    → o ≤ k
    → k < o + w
    → (write_bytes w o v a).byte k ≡ v / 256 ^ (k - o) % 256
unfolding write_bytes
write-inside w o v k a fits low high = ground arith

pub write-Holds : (w o v : ℕ) (a : Area) → o + w ≤ a.size → Holds w o v (write_bytes w o v a)
write-Holds w o v a fits j lt =
    let e : o + j - o ≡ j = omega arith in
    write-inside w o v (o + j) a fits (omega arith) (omega arith) ∙ ap (λ i. v / 256 ^ i % 256) e

-- A write elsewhere leaves a value as it is.
pub kept-Holds :
    (w o v w' o' v' : ℕ) (a : Area)
    → (o + w ≤ o') ⊎ (o' + w' ≤ o)
    → Holds w o v a
    → Holds w o v (write_bytes w' o' v' a)
kept-Holds w o v w' o' v' a apart h j lt = write-other w' o' v' (o + j) a (ground arith) ∙ h j lt

-- The fields of an entry at its place.
pub record Laid (base : ℕ) (t : SpbTransferListEntry) (a : Area) : Type 0 where
  pub at_direction : Holds 4 base t.direction a
  pub at_delay : Holds 4 (base + 4) t.delay_in_us a
  pub at_format : Holds 4 (base + 8) t.transfer.format a
  pub at_buffer : Holds 8 (base + 16) t.transfer.simple.buffer a
  pub at_buffer_cb : Holds 4 (base + 24) t.transfer.simple.buffer_cb a

entry-size : (base : ℕ) (t : SpbTransferListEntry) (a : Area) → (write_entry base t a).size ≡ a.size
unfolding write_entry write_bytes
entry-size base t a = ground arith

entry-other :
    (base k : ℕ) (t : SpbTransferListEntry) (a : Area)
    → (k < base) ⊎ (base + 32 ≤ k)
    → (write_entry base t a).byte k ≡ a.byte k
unfolding write_entry
entry-other base k t a h =
    write-other 4 (base + 24) _ k _ (ground arith)
    ∙ (write-other 8 (base + 16) _ k _ (ground arith)
        ∙ (write-other 4 (base + 8) _ k _ (ground arith)
            ∙ (write-other 4 (base + 4) _ k _ (ground arith)
                ∙ write-other 4 base _ k a (ground arith))))

entry-Laid :
    (base : ℕ) (t : SpbTransferListEntry) (a : Area)
    → base + 32 ≤ a.size
    → Laid base t (write_entry base t a)
unfolding write_entry
entry-Laid base t a fits =
    let s1 = write-size 4 base t.direction a in
    let a1 = write_bytes 4 base t.direction a in
    let s2 = write-size 4 (base + 4) t.delay_in_us a1 in
    let a2 = write_bytes 4 (base + 4) t.delay_in_us a1 in
    let s3 = write-size 4 (base + 8) t.transfer.format a2 in
    let a3 = write_bytes 4 (base + 8) t.transfer.format a2 in
    let s4 = write-size 8 (base + 16) t.transfer.simple.buffer a3 in
    let a4 = write_bytes 8 (base + 16) t.transfer.simple.buffer a3 in
    record {
      at_direction = kept-Holds _ _ _ 4 (base + 24) _ a4 (inl (omega arith)) (
          kept-Holds _ _ _ 8 (base + 16) _ a3 (inl (omega arith)) (
            kept-Holds _ _ _ 4 (base + 8) _ a2 (inl (omega arith)) (
              kept-Holds _ _ _ 4 (base + 4) _ a1 (inl (omega arith))
                (write-Holds _ _ _ a (omega arith)))));
      at_delay = kept-Holds _ _ _ 4 (base + 24) _ a4 (inl (omega arith)) (
          kept-Holds _ _ _ 8 (base + 16) _ a3 (inl (omega arith)) (
            kept-Holds _ _ _ 4 (base + 8) _ a2 (inl (omega arith))
              (write-Holds _ _ _ a1 (omega arith))));
      at_format = kept-Holds _ _ _ 4 (base + 24) _ a4 (inl (omega arith)) (
          kept-Holds _ _ _ 8 (base + 16) _ a3 (inl (omega arith))
            (write-Holds _ _ _ a2 (omega arith)));
      at_buffer =
          kept-Holds _ _ _ 4 (base + 24) _ a4 (inl (omega arith))
            (write-Holds _ _ _ a3 (omega arith));
      at_buffer_cb = write-Holds _ _ _ a4 (omega arith);
    }

pub same-Holds :
    (w o v : ℕ) (a b : Area)
    → ((k : ℕ) → o ≤ k → k < o + w → b.byte k ≡ a.byte k)
    → Holds w o v a
    → Holds w o v b
same-Holds w o v a b same h j lt = same (o + j) (omega arith) (omega arith) ∙ h j lt

same-Laid :
    (base : ℕ) (t : SpbTransferListEntry) (a b : Area)
    → ((k : ℕ) → base ≤ k → k < base + 32 → b.byte k ≡ a.byte k)
    → Laid base t a
    → Laid base t b
same-Laid base t a b same l = record {
  at_direction = same-Holds _ _ _ a b (λ k g h. same k (omega arith) (omega arith)) l.at_direction;
  at_delay = same-Holds _ _ _ a b (λ k g h. same k (omega arith) (omega arith)) l.at_delay;
  at_format = same-Holds _ _ _ a b (λ k g h. same k (omega arith) (omega arith)) l.at_format;
  at_buffer = same-Holds _ _ _ a b (λ k g h. same k (omega arith) (omega arith)) l.at_buffer;
  at_buffer_cb = same-Holds _ _ _ a b (λ k g h. same k (omega arith) (omega arith)) l.at_buffer_cb;
}

entries-size :
    (index : ℕ) (l : List SpbTransferListEntry) (a : Area) → (write_entries index l a).size ≡ a.size
unfolding write_entries
entries-size index [] a = refl
entries-size index (t ∷ l) a = entries-size (index + 1) l _ ∙ entry-size _ t a

pub entries-other :
    (index k : ℕ) (l : List SpbTransferListEntry) (a : Area)
    → (k < 16 + index * 32) ⊎ (16 + (index + length l) * 32 ≤ k)
    → (write_entries index l a).byte k ≡ a.byte k
unfolding write_entries
entries-other index k [] a h = refl
entries-other index k (t ∷ l) a h =
    entries-other (index + 1) k l _ (ground arith)
    ∙ entry-other (16 + index * 32) k t a (ground arith)

pub entries-Laid :
    (index i : ℕ) (l : List SpbTransferListEntry) (a : Area) (t : SpbTransferListEntry)
    → 16 + (index + length l) * 32 ≤ a.size
    → get_elem? l i ≡ some t
    → Laid (16 + (index + i) * 32) t (write_entries index l a)
unfolding write_entries
entries-Laid index i [] a t fits e = absurd (cc)
entries-Laid index zero (x ∷ l) a t fits e =
    let place : index + 0 ≡ index = omega arith in
    let same : x ≡ t = cc in
    let written = entry-Laid (16 + index * 32) x a (ground arith) in
    subst
      (λ u.
        Laid (16 + (index + 0) * 32) u
          (write_entries (index + 1) l (write_entry (16 + index * 32) x a)))
      same
      (subst
        (λ n.
          Laid (16 + n * 32) x (write_entries (index + 1) l (write_entry (16 + index * 32) x a)))
        (sym place)
        (same-Laid (16 + index * 32) x _ _
          (λ k g h. entries-other (index + 1) k l _ (inl (omega arith))) written))
entries-Laid index (suc i) (x ∷ l) a t fits e =
    let place : index + 1 + i ≡ index + suc i = omega arith in
    let size = entry-size (16 + index * 32) x a in
    subst
      (λ n. Laid (16 + n * 32) t (write_entries (index + 1) l (write_entry (16 + index * 32) x a)))
      place (entries-Laid (index + 1) i l _ t (ground arith) e)
