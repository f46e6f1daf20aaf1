-- ===== src/Bulk/Wrappers.antt =====
-- memory.copy and memory.fill out of bounds.
use webtsan.Prelude.{
  ℕ, ◌+◌, ◌<◌, ◌≤◌, ◌≡◌, refl, Bool, true, false, not, arith, ok, ◌↔◌, if-cases, ◌⊎◌, inl, inr,
}
use webtsan.Caller.{Caller}
use webtsan.Callbacks.{WebTSanCallbacks}
use webtsan.Bulk.{WasmMemory, memory_copy_wrapper, memory_fill_wrapper}

not-false : (b : Bool) → not b ≡ false → b ≡ true
not-false true e = refl
not-false false e = cc e

module _ (flag : Bool) (cbs : WebTSanCallbacks) (is_in_bounds : ℕ → ℕ → ℕ → Bool)
    (in_bounds : (i n m : ℕ) → (is_in_bounds i n m ≡ true) ↔ (i + n ≤ m)) (x : Caller)
    (memories : ℕ → WasmMemory) (to from dst src size value : ℕ) where
  -- With the bounds check of V8, which answers true exactly where a range lies within a size: memory.copy with
  -- one of its ranges out of bounds says so, and records and changes nothing.
  pub memory_copy_out_of_bounds :
      ((memories to).memory_size < dst + size) ⊎ ((memories from).memory_size < src + size)
      → memory_copy_wrapper flag cbs is_in_bounds x memories to from dst src size
        ≡ ok (x, memories, false)
  unfolding memory_copy_wrapper
  memory_copy_out_of_bounds out =
      if-cases (λ m. m ≡ ok (x, memories, false))
        (not (is_in_bounds dst size (memories to).memory_size)) (λ _. refl)
        (λ p.
          if-cases (λ m. m ≡ ok (x, memories, false))
            (not (is_in_bounds src size (memories from).memory_size)) (λ _. refl)
            (λ q.
              let dst_fits = (in_bounds dst size (memories to).memory_size).0 (not-false _ p) in
              let src_fits = (in_bounds src size (memories from).memory_size).0 (not-false _ q) in
              absurd (elim out [
                | inl o ↦ omega (arith, o, dst_fits)
                | inr o ↦ omega (arith, o, src_fits)
              ])))

  -- The same for memory.fill.
  memory_fill_out_of_bounds :
      (memories to).memory_size < dst + size
      → memory_fill_wrapper flag cbs is_in_bounds x memories to dst value size
        ≡ ok (x, memories, false)
  unfolding memory_fill_wrapper
  memory_fill_out_of_bounds out =
      if-cases (λ m. m ≡ ok (x, memories, false))
        (not (is_in_bounds dst size (memories to).memory_size)) (λ _. refl)
        (λ p.
          let dst_fits = (in_bounds dst size (memories to).memory_size).0 (not-false _ p) in
          absurd (omega (arith, out, dst_fits)))
