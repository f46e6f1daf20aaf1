-- ===== src/Shadow.antt =====
-- `ShadowCell`, `RaceReport` and `ShadowBuffer` of
-- patches/chromium/new-files/third_party/blink/renderer/core/tsan/web_tsan.{h,cc}.
-- The page table and the cells of a page are functions of their index. The locks are not state: a
-- call holds the lock of its byte while it works on it.
pub mod Cells
pub mod Races
pub mod Access
pub mod Loop
pub mod Clear
pub mod Pairs
pub mod Stripes
use webtsan.Prelude.{
  ℕ, zero, suc, ◌+◌, ◌-◌, ◌*◌, ◌/◌, ◌%◌, Bool, true, false, not, ◌&&◌, Option, none, some, ltb, leb,
  ◌==◌, if◌then◌else◌, update, insert, u64, min,
}
use webtsan.Clock.{VClock, get}

abbrev pub k_shadow_cells_per_byte : ℕ
k_shadow_cells_per_byte = 2

abbrev pub k_page_bytes : ℕ
k_page_bytes = 4096

abbrev pub k_stripe_bytes : ℕ
k_stripe_bytes = 64

abbrev pub k_max_stripes : ℕ
k_max_stripes = 65536

pub record ShadowCell : Type 0 where
  pub tid : ℕ
  pub epoch : ℕ
  pub is_write : Bool
  pub valid : Bool

abbrev pub empty_cell : ShadowCell
empty_cell = record { tid = 0; epoch = 0; is_write = false; valid = false }

pub record RaceReport : Type 0 where
  pub sab_offset : ℕ
  pub sab_backing_store : ℕ
  pub sab_byte_length : ℕ
  pub tid1 : ℕ
  pub is_write1 : Bool
  pub epoch1 : ℕ
  pub tid2 : ℕ
  pub is_write2 : Bool
  pub epoch2 : ℕ

pub record ShadowPage : Type 0 where
  pub cells : ℕ → ShadowCell

abbrev pub empty_page : ShadowPage
empty_page = record { cells = λ _. empty_cell }

-- `stripes` is the size of `stripe_locks_`.
pub record ShadowBuffer : Type 0 where
  pub backing_store : ℕ
  pub byte_length : ℕ
  pub stripes : ℕ
  pub pages : ℕ → Option ShadowPage

-- The constructor.
pub shadow_buffer : ℕ → ℕ → ShadowBuffer
shadow_buffer backing_store byte_length = record {
  backing_store = backing_store;
  byte_length = byte_length;
  stripes = min (u64 (byte_length + 63) / k_stripe_bytes) k_max_stripes;
  pages = λ _. none;
}

abbrev pub page_index : ℕ → ℕ
page_index byte_offset = byte_offset / k_page_bytes

abbrev pub in_page_offset : ℕ → ℕ
in_page_offset byte_offset = byte_offset % k_page_bytes

abbrev pub in_page_shadow_index : ℕ → ℕ → ℕ
in_page_shadow_index in_page c = in_page * k_shadow_cells_per_byte + c

pub stripe_index : ShadowBuffer → ℕ → ℕ
stripe_index b byte_offset = byte_offset / k_stripe_bytes % b.stripes

-- The page at an index, a fresh one where none has been made.
abbrev pub page_of : Option ShadowPage → ShadowPage
page_of none = empty_page
page_of (some p) = p

-- `GetOrCreatePage`: the buffer in which the page is there, and the page.
pub get_or_create_page : ShadowBuffer → ℕ → ShadowBuffer × ShadowPage
get_or_create_page b index =
    let page = page_of (b.pages index) in (record b { pages = insert b.pages index page }, page)

-- The four `continue`s of the scan: false where the cell is passed over.
pub races : ShadowCell → ℕ → Bool → VClock → Bool
races cell tid is_write thread_clock =
    if not cell.valid
    then false
    else if cell.tid == tid
    then false
    else if not cell.is_write && not is_write
    then false
    else if leb cell.epoch (get thread_clock cell.tid)
    then false
    else true

-- The loop over the cells of a byte, from cell `c` with `n` left: the first cell that races.
pub scan_cells : ℕ → ℕ → ShadowPage → ℕ → ℕ → Bool → VClock → Option ShadowCell
scan_cells zero c page in_page tid is_write thread_clock = none
scan_cells (suc n) c page in_page tid is_write thread_clock =
    let cell = page.cells (in_page_shadow_index in_page c) in
    if races cell tid is_write thread_clock
    then some cell
    else scan_cells n (suc c) page in_page tid is_write thread_clock

pub race_report : ShadowBuffer → ℕ → ShadowCell → ℕ → Bool → VClock → RaceReport
race_report b byte cell tid is_write thread_clock = record {
  sab_offset = byte;
  sab_backing_store = b.backing_store;
  sab_byte_length = b.byte_length;
  tid1 = cell.tid;
  is_write1 = cell.is_write;
  epoch1 = cell.epoch;
  tid2 = tid;
  is_write2 = is_write;
  epoch2 = get thread_clock tid;
}

-- The body of the loop of `RecordAccess` at one byte.
pub record_byte : ShadowBuffer → ℕ → ℕ → Bool → VClock → ShadowBuffer × Option RaceReport
unfolding get_or_create_page
record_byte b byte tid is_write thread_clock =
    let (b', page) = get_or_create_page b (page_index byte) in
    let in_page = in_page_offset byte in
    let found = scan_cells k_shadow_cells_per_byte 0 page in_page tid is_write thread_clock in
    let evict_slot = tid % k_shadow_cells_per_byte in
    let entry : ShadowCell = record {
      tid = tid;
      epoch = get thread_clock tid;
      is_write = is_write;
      valid = true;
    } in
    let page' : ShadowPage = record {
      cells = update page.cells (in_page_shadow_index in_page evict_slot) entry;
    } in
    (
      record b' { pages = insert b'.pages (page_index byte) page' },
      elim found [
        | none ↦ none
        | some cell ↦ some (race_report b byte cell tid is_write thread_clock)
      ],
    )

-- The rounds left of the loop, and `i`.
pub record_loop : ℕ → ℕ → ShadowBuffer → ℕ → ℕ → Bool → VClock → ShadowBuffer × Option RaceReport
record_loop zero i b offset tid is_write thread_clock = (b, none)
record_loop (suc n) i b offset tid is_write thread_clock =
    let byte = u64 (offset + i) in
    let (b', race) = record_byte b byte tid is_write thread_clock in
    let rest = record_loop n (suc i) b' offset tid is_write thread_clock in
    if ltb byte b.byte_length then elim race [ none ↦ rest | some r ↦ (b', some r) ] else (b, none)

-- `RecordAccess`; a report stands for the answer true.
pub record_access : ShadowBuffer → ℕ → ℕ → ℕ → Bool → VClock → ShadowBuffer × Option RaceReport
record_access b offset size tid is_write thread_clock =
    record_loop size 0 b offset tid is_write thread_clock

-- The loop over the cells of a byte in `ClearRange`.
pub clear_cells : ℕ → ℕ → ShadowPage → ℕ → ShadowPage
clear_cells zero c page in_page = page
clear_cells (suc n) c page in_page =
    let k = in_page_shadow_index in_page c in
    let cleared = record (page.cells k) { valid = false } in
    clear_cells n (suc c) (record { cells = update page.cells k cleared }) in_page

-- The inner loop of `ClearRange`: `n` bytes of one page, from `byte`.
pub clear_bytes : ℕ → ℕ → ShadowPage → ShadowPage
clear_bytes zero byte page = page
clear_bytes (suc n) byte page =
    clear_bytes n (suc byte) (clear_cells k_shadow_cells_per_byte 0 page (in_page_offset byte))

-- The outer loop of `ClearRange`, on fuel: a page that is not there is skipped whole.
pub clear_loop : ℕ → ShadowBuffer → ℕ → ℕ → ShadowBuffer
clear_loop zero b byte end = b
clear_loop (suc fuel) b byte end =
    let page_idx = page_index byte in
    let next = u64 (u64 (page_idx + 1) * k_page_bytes) in
    let page_end = min end next in
    let skipped = clear_loop fuel b next end in
    let cleared = λ (page : ShadowPage).
      clear_loop fuel
        (record b { pages = insert b.pages page_idx (clear_bytes (page_end - byte) byte page) })
        page_end end in
    if ltb byte end
    then elim (b.pages page_idx) [ none ↦ skipped | some page ↦ cleared page ]
    else b

-- `ClearRange`. Each round ends at a page boundary or at the end, so `end - offset` rounds do.
pub clear_range : ShadowBuffer → ℕ → ℕ → ShadowBuffer
clear_range b offset size =
    let end = min (u64 (offset + size)) b.byte_length in clear_loop (end + 1) b offset end
