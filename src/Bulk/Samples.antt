-- ===== src/Bulk/Samples.antt =====
-- The bytes of a bulk operation that the detector is told of.
use native.Mathlib.Nat.{suc-mul, div_self}
use native.Mathlib.Decide.{dec_lt}
use webtsan.Prelude.{
  ℕ, zero, suc, ◌+◌, ◌*◌, ◌/◌, ◌^◌, ◌<◌, ◌≤◌, ◌≡◌, ◌≢◌, refl, Bool, true, false, List, [], ◌∷◌,
  arith, some, ltb, leb, ◌==◌, if◌then◌else◌, u64, uint32_max, Outcome, ok, undefined, check_failed,
  ◌>>=◌, lt→ltb, le→ltb,
}
use webtsan.Caller.{Caller}
use webtsan.Callbacks.{WebTSanCallbacks}
use webtsan.Bulk.{
  WasmMemory, RecordRange, sample_loop, sample_count, sample_stride, maybe_report_bulk_range,
}

-- Single bytes, one after the other, are recorded as accesses.
pub record_all : RecordRange → WasmMemory → ℕ → Bool → List ℕ → Caller → Outcome Caller
record_all f m tid w [] x = ok x
record_all f m tid w (o ∷ os) x =
    f x m.buffer_start m.byte_length o 1 tid (if w then 1 else 0)
    >>= (λ y. record_all f m tid w os y)

-- `n` offsets, from the `i`-th on.
pub every : ℕ → ℕ → ℕ → ℕ → List ℕ
every zero i offset stride = []
every (suc n) i offset stride = (offset + i * stride) ∷ every n (suc i) offset stride

bind_ext :
    {A B : Type 0} (m : Outcome A) (g h : A → Outcome B)
    → ((y : A) → g y ≡ h y)
    → (m >>= g) ≡ (m >>= h)
bind_ext (ok y) g h e = e y
bind_ext undefined g h e = refl
bind_ext check_failed g h e = refl

sample_loop-every :
    (n i : ℕ) (f : RecordRange) (m : WasmMemory) (offset size stride tid : ℕ) (w : Bool)
    (x : Caller)
    → offset + size < 2 ^ 64
    → i * stride + n * stride ≤ size
    → stride ≢ 0
    → sample_loop n i f m offset size stride tid w x
      ≡ record_all f m tid w (every n i offset stride) x
unfolding sample_loop record_all every
sample_loop-every zero i f m offset size stride tid w x fits all pos = refl
sample_loop-every (suc n) i f m offset size stride tid w x fits all pos =
    let one : suc n * stride ≡ n * stride + stride = suc-mul n stride in
    let next : suc i * stride ≡ i * stride + stride = suc-mul i stride in
    let at : u64 (offset + i * stride) ≡ offset + i * stride = omega arith in
    let end : u64 (offset + size) ≡ offset + size = omega arith in
    let inside : leb (offset + size) (offset + i * stride) ≡ false = ground (arith, one) in
    rw (at, end, inside)
      (bind_ext (f x m.buffer_start m.byte_length (offset + i * stride) 1 tid (if w then 1 else 0))
        _ _
        (λ y.
          sample_loop-every n (suc i) f m offset size stride tid w y fits (omega (arith, one, next))
            pos))

-- The offsets that are recorded for a range: each byte of a range below 64 bytes, and of a larger one 64
-- bytes, from the first one on, that are a 64th of the size apart, rounded down.
abbrev pub samples : ℕ → ℕ → List ℕ
samples offset size = if ltb size 64 then every size 0 offset 1 else every 64 0 offset (size / 64)

module _ (size : ℕ) where
  small_sampling : size ≢ 0 → size < 64 → (sample_count size ≡ size) × (sample_stride size ≡ 1)
  unfolding sample_count sample_stride
  small_sampling some_size h =
      let positive : 0 < size = omega arith in rw (lt→ltb size 64 h, div_self positive) (refl, refl)

  large_sampling : 64 ≤ size → (sample_count size ≡ 64) × (sample_stride size ≡ size / 64)
  unfolding sample_count sample_stride
  large_sampling h =
      let nonzero : (size / 64 == 0) ≡ false = ground arith in
      rw (le→ltb size 64 h, nonzero) (refl, refl)

-- The loop records the samples.
sample_loop-samples :
    (f : RecordRange) (m : WasmMemory) (offset size tid : ℕ) (w : Bool) (x : Caller)
    → size ≢ 0
    → offset + size < 2 ^ 64
    → sample_loop (sample_count size) 0 f m offset size (sample_stride size) tid w x
      ≡ record_all f m tid w (samples offset size) x
sample_loop-samples f m offset size tid w x some_size fits = elim (dec_lt size 64) [
  | yes small ↦
      let (c, s) = small_sampling size some_size small in
      rw (c, s, lt→ltb size 64 small)
        (sample_loop-every size 0 f m offset size 1 tid w x fits (omega arith) (omega arith))
  | no large ↦
      let (c, s) = large_sampling size (omega arith) in
      let big : 64 ≤ size = omega arith in
      rw (c, s, le→ltb size 64 big)
        (sample_loop-every 64 0 f m offset size (size / 64) tid w x fits (omega arith)
          (omega arith))
]

-- With the flag set, the callbacks registered, a shared memory and a thread with an id: a bulk operation on a
-- range that is not empty and does not wrap records single bytes, in their order, each as an access of one
-- byte: each byte of a range below 64 bytes, and of a larger one 64 bytes from the first one on, a 64th of
-- the size apart, rounded down.
pub maybe_report_bulk_range-record_all :
    (cbs : WebTSanCallbacks) (f : RecordRange) (get_tid : Caller → ℕ) (x : Caller) (m : WasmMemory)
    (offset size : ℕ) (w : Bool)
    → cbs.record_range_cb ≡ some f
    → cbs.get_current_tid_cb ≡ some get_tid
    → m.is_shared ≡ true
    → get_tid x ≢ uint32_max
    → size ≢ 0
    → offset + size < 2 ^ 64
    → maybe_report_bulk_range true cbs x m offset size w
      ≡ record_all f m (get_tid x) w (samples offset size) x
unfolding maybe_report_bulk_range
maybe_report_bulk_range-record_all cbs f get_tid x m offset size w has_range has_tid shared set
      some_size fits =
    let sized : (size == 0) ≡ false = ground arith in
    let known : (get_tid x == uint32_max) ≡ false = ground arith in
    simp (sized, has_range, has_tid, shared, known)
      (sample_loop-samples f m offset size (get_tid x) w x some_size fits)

pub All : (ℕ → Type 0) → List ℕ → Type 0
All P [] = Unit {0}
All P (o ∷ os) = P o × All P os

every-All :
    (P : ℕ → Type 0) (n i offset stride : ℕ)
    → ((j : ℕ) → i ≤ j → j < i + n → P (offset + j * stride))
    → All P (every n i offset stride)
unfolding every All
every-All P zero i offset stride h = tt
every-All P (suc n) i offset stride h = (
  h i (omega arith) (omega arith),
  every-All P n (suc i) offset stride (λ j lo hi. h j (omega arith) (omega arith)),
)

-- Of a range of 64 to 127 bytes the samples are all among the first 64 bytes.
pub samples-All :
    (offset size : ℕ)
    → 64 ≤ size
    → size < 128
    → All (λ o. (offset ≤ o) × (o < offset + 64)) (samples offset size)
samples-All offset size lo hi =
    let one : size / 64 ≡ 1 = omega arith in
    rw (le→ltb size 64 lo, one)
      (every-All _ 64 0 offset 1 (λ j from to. (omega arith, omega arith)))
