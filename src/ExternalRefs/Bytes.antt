-- ===== src/ExternalRefs/Bytes.antt =====
-- Memory as bytes, with `ReadUnalignedValue` and `WriteUnalignedValue` of little-endian values.
use webtsan.Prelude.{
  ℕ, zero, suc, ◌+◌, ◌-◌, ◌*◌, ◌/◌, ◌%◌, ◌^◌, ◌≤◌, ◌<◌, ◌≡◌, refl, ap, ap₂, sym, ◌∙◌, arith, ◌⊎◌,
  inl, inr, update, if◌then◌else◌, ltb, leb, ◌&&◌, subst, update_same,
}
use native.Mathlib.Nat.{pow-succ'}

abbrev pub Memory : Type 0
Memory = ℕ → ℕ

-- The value of `n` bytes.
unfoldable pub read_value : ℕ → Memory → ℕ → ℕ
read_value zero m a = 0
read_value (suc n) m a = m a + 256 * read_value n m (a + 1)

unfoldable pub write_value : ℕ → Memory → ℕ → ℕ → Memory
write_value zero m a v = m
write_value (suc n) m a v = update (write_value n m (a + 1) (v / 256)) a (v % 256)

-- `memmove`, and `memcpy` of ranges that are apart.
abbrev pub move_bytes : Memory → (dst src size : ℕ) → Memory
move_bytes m dst src size =
    λ i. if leb dst i && ltb i (dst + size) then m (src + (i - dst)) else m i

abbrev pub set_bytes : Memory → (dst value size : ℕ) → Memory
set_bytes m dst value size = λ i. if leb dst i && ltb i (dst + size) then value else m i

pub read_value-same :
    (n : ℕ) (m k : Memory) (a : ℕ)
    → ((i : ℕ) → a ≤ i → i < a + n → m i ≡ k i)
    → read_value n m a ≡ read_value n k a
unfolding read_value
read_value-same zero m k a same = refl
read_value-same (suc n) m k a same =
    ap₂ (λ (x y : ℕ). x + 256 * y) (same a (omega arith) (omega arith))
      (read_value-same n m k (a + 1) (λ i h l. same i (omega arith) (omega arith)))

pub write_value-outside :
    (n : ℕ) (m : Memory) (a v i : ℕ) → (i < a) ⊎ (a + n ≤ i) → write_value n m a v i ≡ m i
unfolding write_value
write_value-outside zero m a v i out = refl
write_value-outside (suc n) m a v i (inl h) =
    ground (arith, write_value-outside n m (a + 1) (v / 256) i (inl (omega arith)))
write_value-outside (suc n) m a v i (inr h) =
    ground (arith, write_value-outside n m (a + 1) (v / 256) i (inr (omega arith)))

-- A value that is read where it was written.
pub read_value-write_value :
    (n : ℕ) (m : Memory) (a v : ℕ) → v < 256 ^ n → read_value n (write_value n m a v) a ≡ v
unfolding read_value write_value
read_value-write_value zero m a v fits = omega arith
read_value-write_value (suc n) m a v fits =
    let tail =
      read_value-same n (write_value (suc n) m a v) (write_value n m (a + 1) (v / 256)) (a + 1)
        (λ i h l. ground arith) in
    let fits' : v < 256 * 256 ^ n = subst (λ (t : ℕ). v < t) (pow-succ' 256 n) fits in
    let rest = read_value-write_value n m (a + 1) (v / 256) (omega arith) in
    ap₂ (λ (x y : ℕ). x + 256 * y) (update_same (write_value n m (a + 1) (v / 256)) a (v % 256))
      (tail ∙ rest)
    ∙ omega arith

-- A value elsewhere.
pub read_value-elsewhere :
    (n k : ℕ) (m : Memory) (a b v : ℕ)
    → (b + n ≤ a) ⊎ (a + k ≤ b)
    → read_value n (write_value k m a v) b ≡ read_value n m b
read_value-elsewhere n k m a b v (inl h) =
    read_value-same n (write_value k m a v) m b
      (λ i low high. write_value-outside k m a v i (inl (omega arith)))
read_value-elsewhere n k m a b v (inr h) =
    read_value-same n (write_value k m a v) m b
      (λ i low high. write_value-outside k m a v i (inr (omega arith)))

module _ (m : Memory) (dst src size a : ℕ) where
  pub move_bytes-inside :
      dst ≤ a → a < dst + size → move_bytes m dst src size a ≡ m (src + (a - dst))
  move_bytes-inside low high = ground arith

  pub move_bytes-outside : (a < dst) ⊎ (dst + size ≤ a) → move_bytes m dst src size a ≡ m a
  move_bytes-outside (inl h) = ground arith
  move_bytes-outside (inr h) = ground arith

-- Values at two places.
pub read_value-shift :
    (n : ℕ) (m k : Memory) (a b : ℕ)
    → ((i : ℕ) → i < n → m (a + i) ≡ k (b + i))
    → read_value n m a ≡ read_value n k b
unfolding read_value
read_value-shift zero m k a b same = refl
read_value-shift (suc n) m k a b same =
    ap₂ (λ (x y : ℕ). x + 256 * y) (ap m (omega arith) ∙ same 0 (omega arith) ∙ ap k (omega arith))
      (read_value-shift n m k (a + 1) (b + 1)
        (λ i h. ap m (omega arith) ∙ same (suc i) (omega arith) ∙ ap k (omega arith)))

pub read_value-lt :
    (n : ℕ) (m : Memory) (a : ℕ) → ((i : ℕ) → m i < 256) → read_value n m a < 256 ^ n
unfolding read_value
read_value-lt zero m a small = omega arith
read_value-lt (suc n) m a small =
    let first = small a in
    let rest = read_value-lt n m (a + 1) small in
    subst (λ (t : ℕ). m a + 256 * read_value n m (a + 1) < t) (sym (pow-succ' 256 n)) (omega arith)

module _ (m : Memory) (dst value size a : ℕ) where
  pub set_bytes-inside : dst ≤ a → a < dst + size → set_bytes m dst value size a ≡ value
  set_bytes-inside low high = ground arith

  pub set_bytes-outside : (a < dst) ⊎ (dst + size ≤ a) → set_bytes m dst value size a ≡ m a
  set_bytes-outside (inl h) = ground arith
  set_bytes-outside (inr h) = ground arith

pub read_value-zeros : (n a : ℕ) → read_value n (λ _. 0) a ≡ 0
unfolding read_value
read_value-zeros zero a = refl
read_value-zeros (suc n) a = omega (arith, read_value-zeros n (a + 1))
