-- ===== src/MemoryAccess.antt =====
-- `WebTSan::MemoryAccess` of
-- patches/chromium/new-files/third_party/blink/renderer/core/tsan/web_tsan.cc: the shadow, the
-- snapshot of the clock, the check, and the report at most once for a site.
pub mod Epochs
pub mod Told
pub mod Reports
pub mod Twice
use Prim.Native.Nat.{bit_xor}
use webtsan.Prelude.{
  ℕ, ◌+◌, ◌-◌, ◌%◌, Bool, true, not, none, some, List, ◌∷◌, ◌==◌, if◌then◌else◌, update, insert,
  u64, Outcome, ok,
}
use webtsan.Shadow.{ShadowBuffer, RaceReport, record_access}
use webtsan.Detector.{at_index}
use webtsan.Buffers.{get_or_create_shadow}
use webtsan.Report.{to_string}
use webtsan.Caller.{Caller, logged, called_back, with_tsan}

-- `reinterpret_cast<uintptr_t>(backing_store) ^ (report.sab_offset & ~7ull)`.
abbrev pub site_key : ℕ → ℕ → ℕ
site_key backing_store sab_offset = bit_xor backing_store (sab_offset - sab_offset % 8)

-- The report is logged if it is the first of all.
pub log_first : Caller → List ℕ → Caller
log_first x msg = if x.tsan.first_race_logged then x else record x {
  tsan = record (x.tsan) { first_race_logged = true };
  events = logged msg ∷ x.events;
}

pub call_back : Caller → RaceReport → Caller
call_back x report =
    if x.tsan.race_callback then record x { events = called_back report ∷ x.events } else x

-- The body of `if (shadow->RecordAccess(…))`.
pub report_race : Caller → ℕ → RaceReport → Caller
report_race x backing_store report =
    let site = site_key backing_store report.sab_offset in
    if x.tsan.reported_race_sites site
    then x
    else (let t = x.tsan in
        let x1 = with_tsan x (record t {
          reported_race_sites = update t.reported_race_sites site true;
          races_detected = u64 (t.races_detected + 1);
        }) in
        let msg = to_string report in
        let x2 = log_first x1 msg in
        let x3 = record x2 { tls = record (x2.tls) { race_detected = true; race_message = msg } } in
        call_back x3 report)

-- From the snapshot of the clock on. The cells are written in the buffer of the backing store.
pub check_access : Caller → ShadowBuffer → ℕ → ℕ → ℕ → ℕ → Bool → Outcome Caller
check_access x shadow backing_store offset size tid is_write = at_index tid (
    let t = x.tsan in
    let (shadow', race) = record_access shadow offset size tid is_write (t.thread_clocks tid) in
    let x' =
      with_tsan x (record t { shadow_buffers = insert t.shadow_buffers backing_store shadow' }) in
    ok (elim race [ none ↦ x' | some report ↦ report_race x' backing_store report ]))

pub memory_access : Caller → ℕ → ℕ → ℕ → ℕ → ℕ → Bool → Outcome Caller
memory_access x backing_store sab_byte_length offset size tid is_write =
    if not x.tsan.enabled
    then ok x
    else (let t = x.tsan in
        let t1 = record t { accesses_checked = u64 (t.accesses_checked + 1) } in
        if sab_byte_length == 0
        then elim (t1.shadow_buffers backing_store) [
          | none ↦ ok (with_tsan x t1)
          | some shadow ↦
              check_access (with_tsan x t1) shadow backing_store offset size tid is_write
        ]
        else (let (t2, shadow) = get_or_create_shadow t1 backing_store sab_byte_length in
            check_access (with_tsan x t2) shadow backing_store offset size tid is_write))
