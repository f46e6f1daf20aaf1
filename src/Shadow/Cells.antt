-- ===== src/Shadow/Cells.antt =====
-- The shadow cells of a byte, whatever page they lie on, and what `RecordAccess` writes at one byte.
use native.Mathlib.Decide.{ℕ_discrete}
use webtsan.Prelude.{ℕ, ◌%◌, ◌<◌, ◌≡◌, ◌≢◌, refl, Bool, true, false, arith}
use webtsan.Clock.{VClock, get}
use webtsan.Shadow.{
  ShadowCell, ShadowBuffer, page_of, page_index, in_page_offset, in_page_shadow_index, record_byte,
  shadow_buffer,
}

-- Cell `c` of a byte; an empty cell on a page that has not been made.
abbrev pub cell_at : ShadowBuffer → ℕ → ℕ → ShadowCell
cell_at b byte c =
    (page_of (b.pages (page_index byte))).cells (in_page_shadow_index (in_page_offset byte) c)

-- The cell that an access leaves.
abbrev pub access_cell : ℕ → Bool → VClock → ShadowCell
access_cell tid is_write clock = record {
  tid = tid;
  epoch = get clock tid;
  is_write = is_write;
  valid = true;
}

pub cell_at-record_byte_self :
    (b : ShadowBuffer) (byte tid : ℕ) (w : Bool) (clock : VClock)
    → cell_at (record_byte b byte tid w clock).0 byte (tid % 2) ≡ access_cell tid w clock
unfolding record_byte
cell_at-record_byte_self b byte tid w clock = ground arith

pub cell_at-record_byte_other :
    (b : ShadowBuffer) (byte tid : ℕ) (w : Bool) (clock : VClock) (j c : ℕ)
    → c < 2
    → (byte ≡ j → tid % 2 ≢ c)
    → cell_at (record_byte b byte tid w clock).0 j c ≡ cell_at b j c
unfolding record_byte
cell_at-record_byte_other b byte tid w clock j c h ne =
    elim (ℕ_discrete (page_index byte) (page_index j)) [
      | yes p ↦ ground arith
      | no np ↦ ground arith
    ]

-- A new buffer has no valid cell.
pub cell_at-shadow_buffer : (s len j c : ℕ) → (cell_at (shadow_buffer s len) j c).valid ≡ false
unfolding shadow_buffer
cell_at-shadow_buffer s len j c = refl

pub length-shadow_buffer : (s len : ℕ) → (shadow_buffer s len).byte_length ≡ len
unfolding shadow_buffer
length-shadow_buffer s len = refl
