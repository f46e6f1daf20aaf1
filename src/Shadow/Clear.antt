-- ===== src/Shadow/Clear.antt =====
-- `ClearRange`: the walk over the pages clears the range and nothing else.
pub mod Bytes
use native.Mathlib.Decide.{dec_lt, ℕ_discrete}
use webtsan.Prelude.{
  ℕ, zero, suc, ◌+◌, ◌-◌, ◌*◌, ◌/◌, ◌^◌, ◌<◌, ◌≤◌, ◌≡◌, ◌≢◌, refl, sym, ap, ◌∙◌, true, false, none,
  some, arith, lt→ltb, le→ltb, inl, inr, u64, min, subst, Option-cases, insert,
}
use webtsan.Shadow.{
  ShadowPage, ShadowBuffer, page_index, in_page_offset, in_page_shadow_index, clear_cells,
  clear_bytes, clear_loop, clear_range, k_page_bytes,
}
use webtsan.Shadow.Cells.{cell_at}
use webtsan.Shadow.Access.{SameStore}
use webtsan.Shadow.Clear.Bytes.{clear_bytes-cell_in, clear_bytes-cell_out}

-- `d` is `b` with the cells of the bytes from `lo` to below `hi` not valid, and all others as they were.
pub record Cleared (b d : ShadowBuffer) (lo hi : ℕ) : Type 0 where
  pub store : SameStore b d
  pub inside : (j c : ℕ) → c < 2 → lo ≤ j → j < hi → (cell_at d j c).valid ≡ false
  pub outside : (j c : ℕ) → c < 2 → (lo ≤ j → j < hi → ⊥) → cell_at d j c ≡ cell_at b j c

Cleared-none : (b : ShadowBuffer) (lo hi : ℕ) → hi ≤ lo → Cleared b b lo hi
Cleared-none b lo hi h = record {
  store = record { same_store = refl; same_length = refl; same_stripes = refl };
  inside = λ j c lt p q. absurd (omega arith);
  outside = λ j c lt out. refl;
}

Cleared-trans :
    (b d e : ShadowBuffer) (lo mid hi : ℕ)
    → lo ≤ mid
    → mid ≤ hi
    → Cleared b d lo mid
    → Cleared d e mid hi
    → Cleared b e lo hi
Cleared-trans b d e lo mid hi l m p q = record {
  store = record {
    same_store = q.store.same_store ∙ p.store.same_store;
    same_length = q.store.same_length ∙ p.store.same_length;
    same_stripes = q.store.same_stripes ∙ p.store.same_stripes;
  };
  inside = λ j c lt x y. elim (dec_lt j mid) [
    | yes below ↦ rw (q.outside j c lt (λ u v. omega arith)) (p.inside j c lt x below)
    | no above ↦ q.inside j c lt (omega arith) y
  ];
  outside = λ j c lt out.
      q.outside j c lt (λ u v. out (omega arith) v) ∙ p.outside j c lt (λ u v. out u (omega arith));
}

-- The buffer after the inner loop of `ClearRange`, up to `end` on the page of `byte`.
abbrev page_cleared : ShadowBuffer → ShadowPage → ℕ → ℕ → ShadowBuffer
page_cleared b page byte end = record b {
  pages = insert b.pages (page_index byte) (clear_bytes (end - byte) byte page);
}

page_cleared-Cleared :
    (b : ShadowBuffer) (page : ShadowPage) (byte end : ℕ)
    → b.pages (page_index byte) ≡ some page
    → byte ≤ end
    → end ≤ page_index byte * 4096 + 4096
    → Cleared b (page_cleared b page byte end) byte end
page_cleared-Cleared b page byte end e le fits = record {
  store = record { same_store = refl; same_length = refl; same_stripes = refl };
  inside = λ j c lt lo hi. ground (arith, clear_bytes-cell_in (end - byte) byte page j c lt);
  outside = λ j c lt out. elim (ℕ_discrete (page_index byte) (page_index j)) [
    | yes same ↦ ground (arith, clear_bytes-cell_out (end - byte) byte page j c lt)
    | no differs ↦ ground arith
  ];
}

abbrev next_page : ℕ → ℕ
next_page byte = (page_index byte + 1) * 4096

clear_loop-end :
    (fuel : ℕ) (b : ShadowBuffer) (byte end : ℕ) → end ≤ byte → clear_loop (suc fuel) b byte end ≡ b
unfolding clear_loop
clear_loop-end fuel b byte end h = rw (le→ltb byte end h)

next_page-u64 :
    (byte end : ℕ)
    → byte < end
    → end < 2 ^ 63
    → u64 (u64 (page_index byte + 1) * k_page_bytes) ≡ next_page byte
next_page-u64 byte end h small = omega arith

clear_loop-skip :
    (fuel : ℕ) (b : ShadowBuffer) (byte end : ℕ)
    → byte < end
    → end < 2 ^ 63
    → b.pages (page_index byte) ≡ none
    → clear_loop (suc fuel) b byte end ≡ clear_loop fuel b (next_page byte) end
unfolding clear_loop
clear_loop-skip fuel b byte end h small e =
    simp (lt→ltb byte end h, e, next_page-u64 byte end h small)

clear_loop-page :
    (fuel : ℕ) (b : ShadowBuffer) (byte end : ℕ) (page : ShadowPage)
    → byte < end
    → end < 2 ^ 63
    → b.pages (page_index byte) ≡ some page
    → clear_loop (suc fuel) b byte end
      ≡ clear_loop fuel
          (page_cleared b page byte (min end (next_page byte)))
          (min end (next_page byte))
          end
unfolding clear_loop
clear_loop-page fuel b byte end page h small e =
    simp (lt→ltb byte end h, e, next_page-u64 byte end h small)

cell_at-none :
    (b : ShadowBuffer) (j c : ℕ) → b.pages (page_index j) ≡ none → (cell_at b j c).valid ≡ false
cell_at-none b j c e = ground arith

-- The bytes of a page that is not there have empty cells already.
Cleared-skip :
    (b d : ShadowBuffer) (byte end : ℕ)
    → b.pages (page_index byte) ≡ none
    → byte < end
    → Cleared b d (next_page byte) end
    → Cleared b d byte end
Cleared-skip b d byte end e lt p = record {
  store = p.store;
  inside = λ j c in_byte lo hi. elim (dec_lt j (next_page byte)) [
    | yes here ↦
        let same : page_index j ≡ page_index byte = omega arith in
        rw (p.outside j c in_byte (λ u v. omega arith))
          (cell_at-none b j c (subst (λ x. b.pages x ≡ none) (sym same) e))
    | no past ↦ p.inside j c in_byte (omega arith) hi
  ];
  outside = λ j c in_byte out. p.outside j c in_byte (λ u v. out (omega arith) v);
}

clear_loop-Cleared :
    (fuel : ℕ) (b : ShadowBuffer) (byte end : ℕ)
    → end < 2 ^ 63
    → end < byte + fuel
    → Cleared b (clear_loop fuel b byte end) byte end
unfolding clear_loop
clear_loop-Cleared zero b byte end small enough = Cleared-none b byte end (omega arith)
clear_loop-Cleared (suc fuel) b byte end small enough = elim (dec_lt byte end) [
  | no done ↦
      rw (clear_loop-end fuel b byte end (omega arith)) (Cleared-none b byte end (omega arith))
  | yes more ↦ elim (Option-cases (b.pages (page_index byte))) [
    | inl e ↦ rw (clear_loop-skip fuel b byte end more small e) (
        Cleared-skip b _ byte end e more
          (clear_loop-Cleared fuel b (next_page byte) end small (omega arith)))
    | inr (page, e) ↦ rw (clear_loop-page fuel b byte end page more small e) (
        Cleared-trans b _ _ byte (min end (next_page byte)) end (omega arith) (omega arith)
          (page_cleared-Cleared b page byte (min end (next_page byte)) e (omega arith)
            (omega arith))
          (clear_loop-Cleared fuel (page_cleared b page byte (min end (next_page byte)))
            (min end (next_page byte)) end small (omega arith)))
  ]
]

-- `ClearRange` leaves no valid cell at a byte of the range that lies within the buffer, changes no
-- other cell, and makes no difference between pages that are there and pages that are skipped, for
-- a buffer below 2^63 bytes and a range whose end does not wrap.
pub clear_range-Cleared :
    (b : ShadowBuffer) (offset size : ℕ)
    → b.byte_length < 2 ^ 63
    → offset + size < 2 ^ 64
    → Cleared b (clear_range b offset size) offset (min (offset + size) b.byte_length)
unfolding clear_range
clear_range-Cleared b offset size small fits =
    let e : u64 (offset + size) ≡ offset + size = omega arith in
    rw e (
      clear_loop-Cleared _ b offset (min (offset + size) b.byte_length) (omega arith) (omega arith))

-- A cell that is valid after the call was not touched.
pub Cleared-kept :
    (b d : ShadowBuffer) (lo hi j c : ℕ)
    → Cleared b d lo hi
    → c < 2
    → (cell_at d j c).valid ≡ true
    → cell_at d j c ≡ cell_at b j c
Cleared-kept b d lo hi j c p lt ok = elim (dec_lt j lo) [
  | yes before ↦ p.outside j c lt (λ x y. omega arith)
  | no after ↦ elim (dec_lt j hi) [
    | yes below ↦ cc (p.inside j c lt (omega arith) below)
    | no past ↦ p.outside j c lt (λ x y. omega arith)
  ]
]
