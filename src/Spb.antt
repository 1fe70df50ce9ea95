-- ===== src/Spb.antt =====
-- The layout of a transfer sequence for the bus driver (crates/spb/src/lib.rs), on a little-endian
-- machine with pointers of 64 bits. Pointers are their addresses; the offsets lie in the area, where
-- the saturating operations of the source are the plain ones.
pub mod Bytes
pub mod Layout
use nabu_charger.Prelude.{
  ℕ, ◌+◌, ◌-◌, ◌*◌, ◌/◌, ◌%◌, ◌^◌, Bool, true, false, ◌&&◌, ◌||◌, not, List, [], ◌∷◌, length, leb,
  ltb, if◌then◌else◌, min, u32_max, u64_max, sat_add64, Result, ok, err,
}

abbrev pub spb_direction_from_device : ℕ
spb_direction_from_device = 1

abbrev pub spb_direction_to_device : ℕ
spb_direction_to_device = 2

abbrev pub spb_format_simple : ℕ
spb_format_simple = 1

pub record SpbTransferBufferListEntry : Type 0 where
  pub buffer : ℕ
  pub buffer_cb : ℕ

pub record SpbTransferBuffer : Type 0 where
  pub format : ℕ
  pub simple : SpbTransferBufferListEntry

-- The field `buffer` of the source is `transfer` here.
pub record SpbTransferListEntry : Type 0 where
  pub direction : ℕ
  pub delay_in_us : ℕ
  pub transfer : SpbTransferBuffer

pub data SequenceError : Type 0 where
  area_too_small too_many_transfers : SequenceError

-- A memory area: its length, whether it is aligned for the list, and its bytes.
pub record Area : Type 0 where
  pub size : ℕ
  pub aligned : Bool
  pub byte : ℕ → ℕ

abbrev pub header_size : ℕ
header_size = 48

abbrev pub entry_size : ℕ
entry_size = 32

abbrev pub entries_base : ℕ
entries_base = 16

abbrev pub area_size : ℕ → ℕ
area_size count = sat_add64 header_size (min (entry_size * (count - 1)) u64_max)

abbrev pub entry_init : ℕ → ℕ → ℕ → SpbTransferListEntry
entry_init direction buffer buffer_cb = record {
  direction = direction;
  delay_in_us = 0;
  transfer = record {
    format = spb_format_simple;
    simple = record { buffer = buffer; buffer_cb = buffer_cb };
  };
}

-- `area.get_mut(offset..offset + width)`, and the bytes of the value.
unfoldable pub write_bytes : ℕ → ℕ → ℕ → Area → Area
write_bytes width offset value area =
    if leb (offset + width) area.size
    then record area {
      byte = λ k.
          if leb offset k && ltb k (offset + width)
          then value / 256 ^ (k - offset) % 256
          else area.byte k;
    }
    else area

abbrev pub write_u32 : ℕ → ℕ → Area → Area
write_u32 offset value area = write_bytes 4 offset value area

abbrev pub write_pointer : ℕ → ℕ → Area → Area
write_pointer offset value area = write_bytes 8 offset value area

unfoldable pub write_entry : ℕ → SpbTransferListEntry → Area → Area
write_entry base t area = write_u32 (base + 24) t.transfer.simple.buffer_cb (
    write_pointer (base + 16) t.transfer.simple.buffer (
      write_u32 (base + 8) t.transfer.format
        (write_u32 (base + 4) t.delay_in_us (write_u32 base t.direction area))))

-- The loop over the transfers, from an index on.
unfoldable pub write_entries : ℕ → List SpbTransferListEntry → Area → Area
write_entries index [] area = area
write_entries index (t ∷ l) area =
    write_entries (index + 1) l (write_entry (entries_base + index * entry_size) t area)

abbrev pub write_header : ℕ → Area → Area
write_header count area = write_u32 8 count (write_u32 4 0 (write_u32 0 header_size area))

unfoldable pub describe : List SpbTransferListEntry → Area → Result ℕ SequenceError × Area
describe transfers area =
    if ltb area.size (area_size (length transfers)) || not area.aligned
    then (err area_too_small, area)
    else if ltb u32_max (length transfers)
    then (err too_many_transfers, area)
    else (
      ok (area_size (length transfers)),
      write_entries 0 transfers (write_header (length transfers) area),
    )

unfoldable pub write_one : ℕ → ℕ → Area → Result ℕ SequenceError × Area
write_one address value area =
    describe
      (entry_init spb_direction_to_device address 1
        ∷ entry_init spb_direction_to_device value 1
        ∷ [])
      area

unfoldable pub read_one : ℕ → ℕ → Area → Result ℕ SequenceError × Area
read_one address into area =
    describe
      (entry_init spb_direction_to_device address 1
        ∷ entry_init spb_direction_from_device into 1
        ∷ [])
      area
