-- ===== src/Caller/Suppress.antt =====
-- The depth of suppression.
use webtsan.Prelude.{ℕ, ◌+◌, ◌<◌, ◌^◌, ◌≡◌, refl, true, false, arith, ltb, u32, ap, if-cases}
use webtsan.Caller.{Caller, push_suppress, pop_suppress, is_suppressed, reset_suppress}

abbrev with_depth : Caller → ℕ → Caller
with_depth x n = record x { tls = record (x.tls) { current_suppress_depth = n } }

-- Below a depth of 2^32 - 1: after a push the thread is suppressed, and a pop takes it back to what it was;
-- after a reset it is not suppressed, and a pop then changes nothing.
pub push_suppress_balanced :
    (x : Caller)
    → x.tls.current_suppress_depth + 1 < 2 ^ 32
    → (is_suppressed (push_suppress x) ≡ true)
      × (pop_suppress (push_suppress x) ≡ x)
      × (is_suppressed (reset_suppress x) ≡ false)
      × (pop_suppress (reset_suppress x) ≡ reset_suppress x)
unfolding push_suppress pop_suppress is_suppressed reset_suppress
push_suppress_balanced x h =
    let e : u32 (x.tls.current_suppress_depth + 1) ≡ x.tls.current_suppress_depth + 1 =
      omega arith in
    (
      ground arith,
      if-cases (λ y. y ≡ x) (ltb 0 (u32 (x.tls.current_suppress_depth + 1)))
          (λ _. ap (with_depth x) (omega (arith, e))) (λ q. absurd (ground (arith, e, q))),
      refl,
      refl,
    )
