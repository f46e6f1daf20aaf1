-- ===== src/ExternalRefs/Simd/InPlace.antt =====
-- The wrappers on vectors, lane by lane.
use webtsan.Prelude.{ℕ, ◌+◌, ◌*◌, ◌^◌, ◌≤◌, ◌<◌, ◌≡◌, refl, ap, ap₂, ◌∙◌, arith, ◌⊎◌, inl, inr}
use webtsan.ExternalRefs.Bytes.{Memory, read_value, read_value-same}
use webtsan.ExternalRefs.Simd.{lane_loop, bin_lane, simd_float16_bin_wrapper}
use webtsan.ExternalRefs.Simd.F16.{Float32Arithmetic, demote_lane, f16x8_demote_f32x4_zero_wrapper}
use webtsan.ExternalRefs.Simd.Lanes.{
  lane_loop-lane, lane_loop_all, lane_loop-before, lane_loop-behind,
}

-- An operation of two lanes of 16 bits whose results have 16 bits: each of the eight lanes of the first vector gets
-- the result for the lanes of the two vectors as they were, and no byte outside the first vector changes.
pub simd_float16_bin_wrapper-lane :
    (op : ℕ → ℕ → ℕ) (m : Memory) (base d : ℕ)
    → ((a b : ℕ) → op a b < 2 ^ 16)
    → d < 8
    → (read_value 2 (simd_float16_bin_wrapper op m base) (base + d * 2)
        ≡ op (read_value 2 m (base + d * 2)) (read_value 2 m (base + 16 + d * 2)))
      × ((a : ℕ) → (a < base) ⊎ (base + 16 ≤ a) → simd_float16_bin_wrapper op m base a ≡ m a)
unfolding simd_float16_bin_wrapper
simd_float16_bin_wrapper-lane op m base d fits h = (
  lane_loop_all 2 base (bin_lane op base)
      (λ i j k same.
        ap₂ op (read_value-same 2 j k (base + i * 2) (λ a low high. same a low))
          (read_value-same 2 j k (base + 16 + i * 2) (λ a low high. same a (omega arith))))
      (λ i k. fits _ _) 8 d m h,
  λ a out. elim out [
    | inl e ↦ lane_loop-before 2 base (bin_lane op base) 8 0 a m (omega arith)
    | inr e ↦ lane_loop-behind 2 base (bin_lane op base) 8 0 a m (omega arith)
  ],
)

module _ (f : Float32Arithmetic) (fits : (a : ℕ) → f.from_float32 a < 2 ^ 16) (zero16 : ℕ)
    (zero_fits : zero16 < 2 ^ 16) (m : Memory) (base : ℕ) where
  demoted-lane :
      (d : ℕ)
      → d < 4
      → read_value 2 (lane_loop 4 0 2 (demote_lane f base) base m) (base + d * 2)
        ≡ f.from_float32 (read_value 4 m (base + d * 4))
  demoted-lane d h =
      lane_loop_all 2 base (demote_lane f base)
        (λ i j k same.
          ap f.from_float32
            (read_value-same 4 j k (base + i * 4) (λ a low high. same a (omega arith))))
        (λ i k. fits _) 4 d m h

  -- The four numbers of 32 bits are narrowed in the same buffer, with results of 16 bits: each of the first four
  -- lanes gets the number of 16 bits for the number of 32 bits that was there before the call, and the other four
  -- get zero.
  pub f16x8_demote_f32x4_zero_wrapper-lane :
      (d : ℕ)
      → d < 4
      → (read_value 2 (f16x8_demote_f32x4_zero_wrapper f zero16 m base) (base + d * 2)
          ≡ f.from_float32 (read_value 4 m (base + d * 4)))
        × (read_value 2 (f16x8_demote_f32x4_zero_wrapper f zero16 m base) (base + (4 + d) * 2)
            ≡ zero16)
  unfolding f16x8_demote_f32x4_zero_wrapper
  f16x8_demote_f32x4_zero_wrapper-lane d h =
      let m1 = lane_loop 4 0 2 (demote_lane f base) base m in
      (
        read_value-same 2 (lane_loop 4 4 2 (λ _ _. zero16) base m1) m1 (base + d * 2)
              (λ a low high. lane_loop-before 2 base (λ _ _. zero16) 4 4 a m1 (omega arith))
            ∙ demoted-lane d h,
        lane_loop-lane 2 base (λ _ _. zero16) (λ i j k same. refl) (λ i k. zero_fits) 4 4 d m1 h,
      )
