-- ===== src/ExternalRefs/Arrays/Doubling.antt =====
-- The loop that doubles the range that is set.
use webtsan.Prelude.{
  ℕ, zero, suc, ◌+◌, ◌-◌, ◌*◌, ◌%◌, ◌^◌, ◌≤◌, ◌<◌, ◌≡◌, refl, sym, ap, subst, ◌∙◌, arith, ◌⊎◌, inl,
  inr, true, false, ◌||◌, ltb, leb, if◌then◌else◌, ok, undefined, ◌>>=◌, Returns, Returns-bind,
  Returns-map, if-cases, ltb→le, ltb→lt, Bool-cases,
}
use native.Mathlib.Nat.{two-pow-succ}
use webtsan.ExternalRefs.Bytes.{Memory, move_bytes, move_bytes-inside, move_bytes-outside}
use webtsan.ExternalRefs.Arrays.{copy_bytes, doubling_loop, fill_rest}

-- The first `k` bytes repeat a pattern of eight.
abbrev pub Repeats : Memory → ℕ → (ℕ → ℕ) → ℕ → Type 0
Repeats m start pattern k = (i : ℕ) → i < k → m (start + i) ≡ pattern (i % 8)

abbrev pub SameOutside : Memory → Memory → ℕ → ℕ → Type 0
SameOutside m v start size = (a : ℕ) → (a < start) ⊎ (start + size ≤ a) → v a ≡ m a

-- What a fill makes of the memory.
abbrev pub Filled : Memory → ℕ → (ℕ → ℕ) → ℕ → Memory → Type 0
Filled m start pattern bytes v = Repeats v start pattern bytes × SameOutside m v start bytes

-- A copy of the set range behind it.
pub record Extended (m : Memory) (start : ℕ) (pattern : ℕ → ℕ) (k size : ℕ) (v : Memory)
    : Type 0 where
  pub repeats : Repeats v start pattern (k + size)
  pub outside : SameOutside m v start (k + size)

Extended-moved :
    (m : Memory) (start : ℕ) (pattern : ℕ → ℕ) (k size : ℕ)
    → Repeats m start pattern k
    → k % 8 ≡ 0
    → size ≤ k
    → Extended m start pattern k size (move_bytes m (start + k) start size)
Extended-moved m start pattern k size repeats whole fits = record {
  repeats = λ i h. elim (Bool-cases (ltb i k)) [
    | inl e ↦
        let before : i < k = ltb→lt i k e in
        move_bytes-outside m (start + k) start size (start + i) (inl (omega arith))
        ∙ repeats i before
    | inr e ↦
        let behind : k ≤ i = ltb→le i k e in
        let index : start + i - (start + k) ≡ i - k = omega arith in
        let same : (i - k) % 8 ≡ i % 8 = omega arith in
        move_bytes-inside m (start + k) start size (start + i) (omega arith) (omega arith)
        ∙ ap (λ (j : ℕ). m (start + j)) index
        ∙ repeats (i - k) (omega arith)
        ∙ ap pattern same
  ];
  outside = λ a out.
      move_bytes-outside m (start + k) start size a
        (elim out [ inl h ↦ inl (omega arith) | inr h ↦ inr (omega arith) ]);
}

apart_test :
    (start k size : ℕ)
    → size ≤ k
    → (leb (start + k + size) start || leb (start + size) (start + k)) ≡ true
apart_test start k size fits = ground arith

pub copy_bytes-Extended :
    (m : Memory) (start : ℕ) (pattern : ℕ → ℕ) (k size : ℕ)
    → Repeats m start pattern k
    → k % 8 ≡ 0
    → size ≤ k
    → Returns (Extended m start pattern k size) (copy_bytes m (start + k) start size)
unfolding copy_bytes
copy_bytes-Extended m start pattern k size repeats whole fits =
    subst
      (λ b.
        Returns (Extended m start pattern k size)
          (if b then ok (move_bytes m (start + k) start size) else undefined))
      (sym (apart_test start k size fits))
      (Extended-moved m start pattern k size repeats whole fits)

-- Where the loop ends.
pub record Doubled (m : Memory) (start : ℕ) (pattern : ℕ → ℕ) (bytes : ℕ) (r : Memory × ℕ)
    : Type 0 where
  pub within : r.1 ≤ bytes
  pub last : bytes < r.1 * 2
  pub whole : r.1 % 8 ≡ 0
  pub repeats : Repeats r.0 start pattern r.1
  pub outside : SameOutside m r.0 start bytes

doubled_fuel : (k f bytes : ℕ) → bytes < k * 2 ^ suc f → bytes < k * 2 * 2 ^ f
doubled_fuel k f bytes h = grind (arith, two-pow-succ f)

leb→le : (a b : ℕ) → leb a b ≡ true → a ≤ b
leb→le a b e = ground arith

leb→lt : (a b : ℕ) → leb a b ≡ false → b < a
leb→lt a b e = ground arith

no_overflow : (k bytes : ℕ) → bytes < 2 ^ 30 → k ≤ bytes → leb (2 ^ 31) (k * 2) ≡ false
no_overflow k bytes small fits = ground arith

module _ (start : ℕ) (pattern : ℕ → ℕ) (bytes : ℕ) (small : bytes < 2 ^ 30) where
  -- One round, with what the rounds after it come to.
  doubling_round :
      (fuel : ℕ) (m : Memory) (k : ℕ)
      → Repeats m start pattern k
      → k % 8 ≡ 0
      → k ≤ bytes
      → (k * 2 ≤ bytes
          → (m1 : Memory) → Repeats m1 start pattern (k * 2)
          → Returns (Doubled m1 start pattern bytes) (doubling_loop fuel m1 start (k * 2) bytes))
      → Returns (Doubled m start pattern bytes) (doubling_loop (suc fuel) m start k bytes)
  unfolding doubling_loop
  doubling_round fuel m k repeats whole fits next =
      let P = Doubled m start pattern bytes in
      let rest =
        copy_bytes m (start + k) start k >>= (λ m1. doubling_loop fuel m1 start (k * 2) bytes) in
      subst
        (λ b. Returns P (if b then undefined else if leb (k * 2) bytes then rest else ok (m, k)))
        (sym (no_overflow k bytes small fits))
        (if-cases (Returns P) (leb (k * 2) bytes) {x = rest} {y = ok (m, k)}
          (λ e.
            let more = leb→le (k * 2) bytes e in
            Returns-bind (Extended m start pattern k k) P (copy_bytes m (start + k) start k)
              (λ m1. doubling_loop fuel m1 start (k * 2) bytes)
              (copy_bytes-Extended m start pattern k k repeats whole (omega arith))
              (λ m1 x.
                Returns-map (Doubled m1 start pattern bytes) P
                  (doubling_loop fuel m1 start (k * 2) bytes)
                  (λ r d. record {
                    within = d.within;
                    last = d.last;
                    whole = d.whole;
                    repeats = d.repeats;
                    outside = λ a out.
                        d.outside a out
                        ∙ x.outside a (elim out [ inl h ↦ inl h | inr h ↦ inr (omega arith) ]);
                  })
                  (next more m1 (λ i h. x.repeats i (omega arith)))))
          (λ e. record {
            within = fits;
            last = leb→lt (k * 2) bytes e;
            whole = whole;
            repeats = repeats;
            outside = λ a out. refl;
          }))

  pub doubling_loop-Doubled :
      (fuel : ℕ) (m : Memory) (k : ℕ)
      → Repeats m start pattern k
      → k % 8 ≡ 0
      → k ≤ bytes
      → bytes < k * 2 ^ fuel
      → Returns (Doubled m start pattern bytes) (doubling_loop (suc fuel) m start k bytes)
  doubling_loop-Doubled zero m k repeats whole fits enough =
      doubling_round zero m k repeats whole fits (λ more. absurd (omega arith))
  doubling_loop-Doubled (suc fuel) m k repeats whole fits enough =
      doubling_round (suc fuel) m k repeats whole fits (λ more m1 again.
        doubling_loop-Doubled fuel m1 (k * 2) again (omega arith) more
          (doubled_fuel k fuel bytes enough))

  -- The loop and the copy of what is left.
  pub fill_rest-Extended :
      (m : Memory) (r : Memory × ℕ)
      → Doubled m start pattern bytes r
      → Returns (Filled m start pattern bytes) (fill_rest start bytes r)
  unfolding fill_rest
  fill_rest-Extended m (v, k) d =
      let P = Filled m start pattern bytes in
      if-cases (Returns P) (ltb k bytes) {x = copy_bytes v (start + k) start (bytes - k)} {y = ok v}
        (λ e.
          let less = ltb→lt k bytes e in
          let size : k + (bytes - k) ≡ bytes = omega arith in
          Returns-map (Extended v start pattern k (bytes - k)) P
            (copy_bytes v (start + k) start (bytes - k))
            (λ u x. (
              λ i h. x.repeats i (omega arith),
              λ a out.
                  x.outside a (elim out [ inl h ↦ inl h | inr h ↦ inr (omega arith) ])
                  ∙ d.outside a out,
            ))
            (copy_bytes-Extended v start pattern k (bytes - k) d.repeats d.whole
              (omega (arith, d.last))))
        (λ e. (λ i h. d.repeats i (omega (arith, ltb→le k bytes e, h)), d.outside))
