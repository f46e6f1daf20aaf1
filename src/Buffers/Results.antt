-- ===== src/Buffers/Results.antt =====
-- What `GetOrCreateShadow` returns.
use webtsan.Prelude.{
  ◌==◌, if◌then◌else◌, refl, ap, ◌∙◌, ==_iff, ℕ, ◌≡◌, none, some, arith, insert, if-cases, not,
  true, Option-cases, inl, inr,
}
use webtsan.Shadow.{ShadowBuffer, shadow_buffer}
use webtsan.Detector.{WebTSan}
use webtsan.Buffers.{get_or_create_shadow, remove_shadow}

module _ (t : WebTSan) (s len : ℕ) where
  pub get_or_create_shadow_found :
      (b : ShadowBuffer) → t.shadow_buffers s ≡ some b → get_or_create_shadow t s len ≡ (t, b)
  unfolding get_or_create_shadow
  get_or_create_shadow_found b e = rw (e, get_or_create_shadow)

  pub get_or_create_shadow_new :
      t.shadow_buffers s ≡ none
      → get_or_create_shadow t s len ≡ (
        record t { shadow_buffers = insert t.shadow_buffers s (shadow_buffer s len) },
        shadow_buffer s len,
      )
  unfolding get_or_create_shadow
  get_or_create_shadow_new e = rw (e, get_or_create_shadow)

pub remove_shadow-none :
    (t : WebTSan) (s : ℕ) → t.enabled ≡ true → (remove_shadow t s).shadow_buffers s ≡ none
unfolding remove_shadow
remove_shadow-none t s on =
    if-cases (λ (u : WebTSan). u.shadow_buffers s ≡ none) (not t.enabled) (λ e. cc (on, e))
      (λ _. elim (Option-cases (t.shadow_buffers s)) [
        | inl e ↦ rw e e
        | inr (b, e) ↦ rw e (ground arith)
      ])

absent_shadow :
    (t : WebTSan) (s a : ℕ)
    → t.shadow_buffers s ≡ none
    → t.shadow_buffers a ≡ (if a == s then none else t.shadow_buffers a)
absent_shadow t s a e =
    if-cases (λ o. t.shadow_buffers a ≡ o) (a == s)
      (λ same. ap t.shadow_buffers ((==_iff a s).0 same) ∙ e) (λ _. refl)

-- `RemoveShadow` removes the shadow of the one store.
pub remove_shadow-buffers :
    (t : WebTSan) (s a : ℕ)
    → t.enabled ≡ true
    → (remove_shadow t s).shadow_buffers a ≡ (if a == s then none else t.shadow_buffers a)
unfolding remove_shadow
remove_shadow-buffers t s a on =
    if-cases (λ (u : WebTSan). u.shadow_buffers a ≡ (if a == s then none else t.shadow_buffers a))
      (not t.enabled) (λ e. cc (on, e))
      (λ _. elim (Option-cases (t.shadow_buffers s)) [
        | inl e ↦ rw e (absent_shadow t s a e)
        | inr (b, e) ↦ rw e (ground arith)
      ])
