-- ===== src/Buffers/Epochs.antt =====
-- The calls on shadow buffers keep the invariant of the epochs.
use webtsan.Prelude.{
  ℕ, ◌+◌, ◌^◌, ◌<◌, ◌≡◌, Option, some, not, arith, sym, Option-cases, if-cases, inl, inr, insert,
  erase, update_same, subst,
}
use native.Mathlib.Decide.{ℕ_discrete}
use webtsan.Shadow.{ShadowBuffer, shadow_buffer, clear_range}
use webtsan.Shadow.Cells.{cell_at-shadow_buffer, length-shadow_buffer}
use webtsan.Shadow.Clear.{Cleared-kept, clear_range-Cleared}
use webtsan.Detector.{WebTSan}
use webtsan.Epochs.{CellIsReached, CellsAreReached, EpochsAreReached}
use webtsan.Buffers.{remove_shadow, clear_shadow, get_or_create_shadow}

with_buffers-EpochsAreReached :
    (t : WebTSan) (m : ℕ → Option ShadowBuffer)
    → EpochsAreReached t
    → ((s : ℕ) (b : ShadowBuffer)
        → m s ≡ some b
        → (b.byte_length < 2 ^ 63) × CellsAreReached t.thread_clocks b)
    → EpochsAreReached (record t { shadow_buffers = m })
with_buffers-EpochsAreReached t m v w = record {
  next_small = v.next_small;
  threads = v.threads;
  orphan = v.orphan;
  syncs = v.syncs;
  edges = v.edges;
  retired = v.retired;
  sizes = λ s b e. (w s b e).0;
  cells = λ s b e. (w s b e).1;
}

module _ (t : WebTSan) (v : EpochsAreReached t) where
  pub insert_buffer-EpochsAreReached :
      (s : ℕ) (b : ShadowBuffer)
      → b.byte_length < 2 ^ 63
      → CellsAreReached t.thread_clocks b
      → EpochsAreReached (record t { shadow_buffers = insert t.shadow_buffers s b })
  insert_buffer-EpochsAreReached s b small ok =
      with_buffers-EpochsAreReached t (insert t.shadow_buffers s b) v (λ k d e.
        elim (ℕ_discrete s k) [
          | yes same ↦
              let e' : b ≡ d = ground arith in
              subst (λ x. (x.byte_length < 2 ^ 63) × CellsAreReached t.thread_clocks x) e'
                (small, ok)
          | no ne ↦ (v.sizes k d (ground arith), v.cells k d (ground arith))
        ])

  pub remove_shadow-EpochsAreReached : (s : ℕ) → EpochsAreReached (remove_shadow t s)
  unfolding remove_shadow
  remove_shadow-EpochsAreReached s =
      if-cases EpochsAreReached (not t.enabled) (λ _. v)
        (λ _. elim (Option-cases (t.shadow_buffers s)) [
          | inl e ↦ rw e v
          | inr (b, e) ↦ rw e (
              with_buffers-EpochsAreReached t (erase t.shadow_buffers s) v
                (λ k d q. (v.sizes k d (ground arith), v.cells k d (ground arith))))
        ])

  -- A range that does not wrap.
  pub clear_shadow-EpochsAreReached :
      (s offset size : ℕ) → offset + size < 2 ^ 64 → EpochsAreReached (clear_shadow t s offset size)
  unfolding clear_shadow
  clear_shadow-EpochsAreReached s offset size fits =
      if-cases EpochsAreReached (not t.enabled) (λ _. v)
        (λ _. elim (Option-cases (t.shadow_buffers s)) [
          | inl e ↦ rw e v
          | inr (b, e) ↦ rw e (cleared b e)
        ])
    where
      cleared :
          (b : ShadowBuffer)
          → t.shadow_buffers s ≡ some b
          → EpochsAreReached
              (record t { shadow_buffers = insert t.shadow_buffers s (clear_range b offset size) })
      cleared b e =
          let done = clear_range-Cleared b offset size (v.sizes s b e) fits in
          insert_buffer-EpochsAreReached s (clear_range b offset size)
            (rw (done.store.same_length) (v.sizes s b e))
            (λ j c lt ok.
              let same = Cleared-kept b (clear_range b offset size) _ _ j c done lt ok in
              subst (λ x. CellIsReached t.thread_clocks x c) (sym same)
                (v.cells s b e j c lt (rw (← same) ok)))

  pub get_or_create_shadow-EpochsAreReached :
      (s len : ℕ)
      → len < 2 ^ 63
      → EpochsAreReached (get_or_create_shadow t s len).0
        × ((get_or_create_shadow t s len).0.shadow_buffers s
            ≡ some (get_or_create_shadow t s len).1)
  unfolding get_or_create_shadow
  get_or_create_shadow-EpochsAreReached s len small = elim (Option-cases (t.shadow_buffers s)) [
    | inr (b, e) ↦ rw (e, get_or_create_shadow) (v, e)
    | inl e ↦
        rw (e, get_or_create_shadow)
          (
            insert_buffer-EpochsAreReached s (shadow_buffer s len)
                (rw (length-shadow_buffer s len) small)
                (λ j c lt ok. cc (cell_at-shadow_buffer s len j c)),
            update_same t.shadow_buffers s (some (shadow_buffer s len)),
          )
  ]
