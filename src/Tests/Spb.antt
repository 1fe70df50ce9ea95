-- ===== src/Tests/Spb.antt =====
-- The transfer sequences of crates/spb/src/lib.rs on small areas.
use nabu_charger.Prelude.{ℕ, ◌≡◌, refl, List, [], ◌∷◌, true, ok, err}
use nabu_charger.Spb.{
  SpbTransferListEntry, Area, entry_init, spb_direction_to_device, spb_direction_from_device,
  describe, write_one, read_one, area_too_small, write_bytes, write_entry, write_entries,
}
use nabu_charger.Spb.Layout.{Answered, describe-Answered}

abbrev blank : ℕ → Area
blank size = record { size = size; aligned = true; byte = λ k. 255 }

abbrev two_transfers : List SpbTransferListEntry
two_transfers =
    entry_init spb_direction_to_device 4660 1 ∷ entry_init spb_direction_from_device 22136 1 ∷ []

describe-Answered_example : Answered two_transfers (blank 96) (describe two_transfers (blank 96))
describe-Answered_example = describe-Answered two_transfers (blank 96)

-- Two transfers need 80 bytes.
two_need_80 : (write_one 4660 22136 (blank 80)).0 ≡ ok 80
unfolding write_one describe
two_need_80 = refl

two_miss_79 : read_one 4660 22136 (blank 79) ≡ (err area_too_small, blank 79)
unfolding read_one describe
two_miss_79 = refl

-- The buffer of the second entry is at 64, its low byte first.
second_buffer : (read_one 4660 22136 (blank 80)).1.byte 65 ≡ 86
unfolding read_one describe write_entries write_entry write_bytes
second_buffer = refl
