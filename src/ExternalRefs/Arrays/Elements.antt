-- ===== src/ExternalRefs/Arrays/Elements.antt =====
-- Elements of 1, 2, 4 or 8 bytes in a range that repeats eight bytes.
use webtsan.Prelude.{
  ℕ, ◌+◌, ◌*◌, ◌/◌, ◌%◌, ◌^◌, ◌≤◌, ◌<◌, ◌≡◌, refl, sym, ap, subst, ◌∙◌, arith, ◌⊎◌, inl, inr,
  Returns, Returns-bind, Returns-map,
}
use webtsan.ExternalRefs.Bytes.{
  Memory, read_value, set_bytes, set_bytes-inside, set_bytes-outside, read_value-zeros,
  read_value-same, read_value-shift,
}
use webtsan.ExternalRefs.Simd.{lane_loop}
use webtsan.ExternalRefs.Simd.Lanes.{lane_loop_all, lane_loop-behind, lane_loop-before}
use webtsan.ExternalRefs.Arrays.{
  eight_set, set_eight, fill_on, k_doublings, doubling_loop, fill_rest,
}
use webtsan.ExternalRefs.Arrays.Doubling.{
  Repeats, SameOutside, Filled, Doubled, doubling_loop-Doubled, fill_rest-Extended,
}

-- Values of `u` bytes, `q` of which make eight.
pub record Divides (u q : ℕ) : Type 0 where
  pub quotient : 8 / u ≡ q
  pub total : q * u ≡ 8
  pub inside : (d : ℕ) → d % q < q
  pub place : (d i : ℕ) → i < u → (d * u + i) % 8 ≡ (d % q) * u + i

pub divides1 : Divides 1 8
divides1 = record {
  quotient = refl;
  total = refl;
  inside = λ d. omega arith;
  place = λ d i h. omega arith;
}

pub divides2 : Divides 2 4
divides2 = record {
  quotient = refl;
  total = refl;
  inside = λ d. omega arith;
  place = λ d i h. omega arith;
}

pub divides4 : Divides 4 2
divides4 = record {
  quotient = refl;
  total = refl;
  inside = λ d. omega arith;
  place = λ d i h. omega arith;
}

pub divides8 : Divides 8 1
divides8 = record {
  quotient = refl;
  total = refl;
  inside = λ d. omega arith;
  place = λ d i h. omega arith;
}

-- Each element has the value, and no byte outside the range changes.
abbrev pub HasElements : ℕ → ℕ → ℕ → ℕ → Memory → Memory → Type 0
HasElements u value start length m v =
    ((d : ℕ) → d < length → read_value u v (start + d * u) ≡ value)
    × SameOutside m v start (length * u)

module _ (u q value start length : ℕ) (m : Memory) (divides : Divides u q) (fits : value < 256 ^ u)
    (least : 8 ≤ length * u) (small : length * u < 2 ^ 30) where
  abbrev pub eight : Memory
  eight = lane_loop q 0 u (λ _ _. value) start m

  element_fits : (d : ℕ) → d < length → d * u + u ≤ length * u
  element_fits d h = grind arith

  element-Repeats :
      (v : Memory)
      → Repeats v start (λ j. eight (start + j)) (length * u)
      → (d : ℕ) → d < length
      → read_value u v (start + d * u) ≡ value
  element-Repeats v repeats d h =
      read_value-shift u v eight (start + d * u) (start + (d % q) * u) (λ i low.
        ap v (omega arith)
        ∙ repeats (d * u + i) (omega (arith, element_fits d h))
        ∙ ap (λ (j : ℕ). eight (start + j)) (divides.place d i low)
        ∙ ap eight (omega arith))
      ∙ lane_loop_all u start (λ _ _. value) (λ i j k same. refl) (λ i k. fits) q (d % q) m
          (divides.inside d)

  eight-outside : (a : ℕ) → (a < start) ⊎ (start + length * u ≤ a) → eight a ≡ m a
  eight-outside a (inl h) = lane_loop-before u start (λ _ _. value) q 0 a m (omega (arith, h))
  eight-outside a (inr h) =
      let all : (0 + q) * u ≡ 8 = ap (λ (t : ℕ). t * u) (omega arith) ∙ divides.total in
      lane_loop-behind u start (λ _ _. value) q 0 a m (omega (arith, h, all, least))

  pub eight-HasElements :
      Returns
        (HasElements u value start length m)
        (fill_on start (length * u) (eight_set (set_eight u value m start)))
  eight-HasElements =
      let p = λ (j : ℕ). eight (start + j) in
      subst
        (λ (n : ℕ).
          Returns (HasElements u value start length m)
            (fill_on start (length * u) (eight_set (lane_loop n 0 u (λ _ _. value) start m))))
        (sym divides.quotient)
        (Returns-bind (Doubled eight start p (length * u)) (HasElements u value start length m)
          (doubling_loop k_doublings eight start 8 (length * u))
          (λ r. fill_rest start (length * u) r)
          (doubling_loop-Doubled start p (length * u) small 31 eight 8
            (λ i h. ap (λ (j : ℕ). eight (start + j)) (omega arith)) refl least (omega arith))
          (λ r d.
            Returns-map (Filled eight start p (length * u)) (HasElements u value start length m)
              (fill_rest start (length * u) r)
              (λ v filled.
                (element-Repeats v filled.0, λ a out. filled.1 a out ∙ eight-outside a out))
              (fill_rest-Extended start p (length * u) small eight r d)))

  pub zeros-HasElements :
      value ≡ 0 → HasElements u value start length m (set_bytes m start 0 (length * u))
  zeros-HasElements none_set = (
    λ d h.
        read_value-same u (set_bytes m start 0 (length * u)) (λ _. 0) (start + d * u)
          (λ a low high.
            set_bytes-inside m start 0 (length * u) a (omega (arith, low))
              (omega (arith, high, element_fits d h)))
        ∙ read_value-zeros u (start + d * u)
        ∙ sym none_set,
    λ a out. set_bytes-outside m start 0 (length * u) a out,
  )
