-- ===== src/ExternalRefs/Simd/Lanes.antt =====
-- The loops over lanes work on each lane as it was before, although the result takes the place of the
-- operand.
use webtsan.Prelude.{
  ℕ, zero, suc, ◌+◌, ◌*◌, ◌^◌, ◌≤◌, ◌<◌, ◌≡◌, refl, sym, ap, subst, ◌∙◌, arith, inl, inr,
}
use native.Mathlib.Nat.{suc-mul}
use webtsan.ExternalRefs.Bytes.{
  Memory, read_value, write_value, read_value-same, read_value-write_value, write_value-outside,
}
use webtsan.ExternalRefs.Simd.{lane_loop}

lane_mono : (size i n : ℕ) → (i + n) * size ≡ i * size + n * size
lane_mono size i n = grind arith

-- The value for a lane depends on the memory from that lane on.
abbrev pub IsLocal : ℕ → ℕ → (ℕ → Memory → ℕ) → Type 0
IsLocal base size value =
    (i : ℕ) (m k : Memory) → ((a : ℕ) → base + i * size ≤ a → m a ≡ k a) → value i m ≡ value i k

module _ (size base : ℕ) (value : ℕ → Memory → ℕ) where
  -- Bytes before the lane where the loop starts.
  pub lane_loop-before :
      (n i a : ℕ) (m : Memory) → a < base + i * size → lane_loop n i size value base m a ≡ m a
  unfolding lane_loop
  lane_loop-before zero i a m h = refl
  lane_loop-before (suc n) i a m h =
      lane_loop-before n (suc i) a (write_value size m (base + i * size) (value i m))
        (omega (arith, suc-mul i size))
      ∙ write_value-outside size m (base + i * size) (value i m) a (inl h)

  -- Bytes behind the last lane.
  pub lane_loop-behind :
      (n i a : ℕ) (m : Memory) → base + (i + n) * size ≤ a → lane_loop n i size value base m a ≡ m a
  unfolding lane_loop
  lane_loop-behind zero i a m h = refl
  lane_loop-behind (suc n) i a m h =
      lane_loop-behind n (suc i) a (write_value size m (base + i * size) (value i m))
        (subst (λ (t : ℕ). base + t * size ≤ a) (omega arith) h)
      ∙ write_value-outside size m (base + i * size) (value i m) a
          (inr (omega (arith, h, lane_mono size i (suc n), suc-mul n size)))

  module _ (is_local : IsLocal base size value)
      (fits : (i : ℕ) (m : Memory) → value i m < 256 ^ size) where
    pub lane_loop-lane :
        (n i d : ℕ) (m : Memory)
        → d < n
        → read_value size (lane_loop n i size value base m) (base + (i + d) * size)
          ≡ value (i + d) m
    unfolding lane_loop
    lane_loop-lane zero i d m h = absurd (omega arith)
    lane_loop-lane (suc n) i zero m h =
        let m1 = write_value size m (base + i * size) (value i m) in
        let same : i + 0 ≡ i = omega arith in
        ap (λ (k : ℕ). read_value size (lane_loop n (suc i) size value base m1) (base + k * size))
          same
        ∙ read_value-same size (lane_loop n (suc i) size value base m1) m1 (base + i * size)
            (λ a low high. lane_loop-before n (suc i) a m1 (omega (arith, high, suc-mul i size)))
        ∙ read_value-write_value size m (base + i * size) (value i m) (fits i m)
        ∙ ap (λ (k : ℕ). value k m) (sym same)
    lane_loop-lane (suc n) i (suc d) m h =
        let m1 = write_value size m (base + i * size) (value i m) in
        let same : i + suc d ≡ suc i + d = omega arith in
        ap (λ (k : ℕ). read_value size (lane_loop n (suc i) size value base m1) (base + k * size))
          same
        ∙ lane_loop-lane n (suc i) d m1 (omega arith)
        ∙ is_local (suc i + d) m1 m (λ a low.
          write_value-outside size m (base + i * size) (value i m) a
            (inr (omega (arith, low, lane_mono size (suc i) d, suc-mul i size))))
        ∙ ap (λ (k : ℕ). value k m) (sym same)

    pub lane_loop_all :
        (n d : ℕ) (m : Memory)
        → d < n
        → read_value size (lane_loop n 0 size value base m) (base + d * size) ≡ value d m
    lane_loop_all n d m h =
        subst
          (λ (k : ℕ).
            read_value size (lane_loop n 0 size value base m) (base + k * size) ≡ value k m)
          (omega arith) (lane_loop-lane n 0 d m h)
