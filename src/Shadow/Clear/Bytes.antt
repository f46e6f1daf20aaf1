-- ===== src/Shadow/Clear/Bytes.antt =====
-- The inner loops of `ClearRange`, on the bytes of one page.
use native.Mathlib.Decide.{ℕ_discrete}
use webtsan.Prelude.{ℕ, zero, suc, ◌+◌, ◌*◌, ◌/◌, ◌<◌, ◌≤◌, ◌≡◌, ◌≢◌, refl, ap, ◌∙◌, false, arith}
use webtsan.Shadow.{
  ShadowPage, page_index, in_page_offset, in_page_shadow_index, clear_cells, clear_bytes,
}

clear_cells-cell_self :
    (page : ShadowPage) (byte c : ℕ)
    → c < 2
    → ((clear_cells 2 0 page (in_page_offset byte)).cells
        (in_page_shadow_index (in_page_offset byte) c)).valid
      ≡ false
unfolding clear_cells
clear_cells-cell_self page byte c h = ground arith

clear_cells-cell_other :
    (page : ShadowPage) (byte k : ℕ)
    → (k / 2 ≢ in_page_offset byte)
    → (clear_cells 2 0 page (in_page_offset byte)).cells k ≡ page.cells k
unfolding clear_cells
clear_cells-cell_other page byte k h = ground arith

other :
    (j c byte : ℕ)
    → c < 2
    → page_index j ≡ page_index byte
    → j ≢ byte
    → in_page_shadow_index (in_page_offset j) c / 2 ≢ in_page_offset byte
other j c byte lt same ne = omega arith

-- `n` bytes of one page, from `byte`.
pub clear_bytes-cell_out :
    (n byte : ℕ) (page : ShadowPage) (j c : ℕ)
    → c < 2
    → page_index j ≡ page_index byte
    → byte + n ≤ page_index byte * 4096 + 4096
    → ((byte ≤ j) → j < byte + n → ⊥)
    → (clear_bytes n byte page).cells (in_page_shadow_index (in_page_offset j) c)
      ≡ page.cells (in_page_shadow_index (in_page_offset j) c)
unfolding clear_bytes
clear_bytes-cell_out zero byte page j c lt same fits out = refl
clear_bytes-cell_out (suc n) byte page j c lt same fits out = elim (ℕ_discrete n 0) [
  | yes e ↦
      rw (e, clear_bytes)
        (clear_cells-cell_other page byte (in_page_shadow_index (in_page_offset j) c)
          (other j c byte lt same (λ q. out (omega arith) (omega arith))))
  | no more ↦
      clear_bytes-cell_out n (suc byte) (clear_cells 2 0 page (in_page_offset byte)) j c lt
        (omega arith) (omega arith) (λ p q. out (omega arith) (omega arith))
      ∙ clear_cells-cell_other page byte (in_page_shadow_index (in_page_offset j) c)
          (other j c byte lt same (λ q. out (omega arith) (omega arith)))
]

pub clear_bytes-cell_in :
    (n byte : ℕ) (page : ShadowPage) (j c : ℕ)
    → c < 2
    → page_index j ≡ page_index byte
    → byte + n ≤ page_index byte * 4096 + 4096
    → byte ≤ j
    → j < byte + n
    → ((clear_bytes n byte page).cells (in_page_shadow_index (in_page_offset j) c)).valid ≡ false
unfolding clear_bytes
clear_bytes-cell_in zero byte page j c lt same fits lo hi = absurd (omega arith)
clear_bytes-cell_in (suc n) byte page j c lt same fits lo hi = elim (ℕ_discrete byte j) [
  | yes e ↦ elim (ℕ_discrete n 0) [
    | yes last ↦ rw (last, clear_bytes) (rw e (clear_cells-cell_self page j c lt))
    | no more ↦
        ap (λ x. x.valid)
          (clear_bytes-cell_out n (suc byte) (clear_cells 2 0 page (in_page_offset byte)) j c lt
            (omega arith) (omega arith) (λ p q. omega arith))
        ∙ rw e (clear_cells-cell_self page j c lt)
  ]
  | no ne ↦
      clear_bytes-cell_in n (suc byte) (clear_cells 2 0 page (in_page_offset byte)) j c lt
        (omega arith) (omega arith) (omega arith) (omega arith)
]
