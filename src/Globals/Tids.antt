-- ===== src/Globals/Tids.antt =====
-- The id of a thread and the functions of a page.
use webtsan.Prelude.{
  ℕ, ◌<◌, ◌≡◌, ◌≢◌, refl, true, arith, List, ◌∷◌, not, ◌&&◌, ◌==◌, ltb, length, uint32_max, ok,
  Returns, if-cases, Option-cases, inl, inr, ltb→lt, update_same, subst, sym,
}
use webtsan.Clock.{k_max_threads}
use webtsan.Clock.Order.{Le, get-join}
use webtsan.Detector.{WebTSan, join_thread}
use webtsan.Threads.Absorb.{thread_absorb-ok}
use webtsan.Caller.{Caller, with_tsan, get_current_tid, set_current_tid}
use webtsan.Console.{Realm}
use webtsan.Globals.{
  JsValue, arg, from_maybe, thread_finish_callback, record_range_callback, mutex_pre_lock_callback,
  mutex_post_lock_callback, mutex_unlock_callback, mutex_read_lock_callback,
  mutex_read_unlock_callback, pthread_join_callback, set_current_tid_callback, switch_tid,
}

module _ (x : Caller) (info : List JsValue) (unset : get_current_tid x ≡ uint32_max) where
  record_range_unset : (realm : Realm) → record_range_callback realm x info ≡ ok x
  unfolding record_range_callback
  record_range_unset realm =
      if-cases (λ y. y ≡ ok x) (ltb (length info) 4) (λ _. refl)
        (λ _. elim (Option-cases (arg info 0).shared_buffer) [
          | inl e ↦ rw e refl
          | inr (b, e) ↦ rw e (
              if-cases (λ y. y ≡ ok x) (from_maybe (arg info 2).uint32_value 0 == 0) (λ _. refl)
                (λ _. rw unset refl))
        ])

  -- A thread that has no id: none of the functions of a page that work for the current thread does
  -- anything, whatever they are given, but for `__webTSanPthreadCreate`.
  pub callbacks_unset :
      (realm : Realm)
      → (record_range_callback realm x info ≡ ok x)
        × (thread_finish_callback x info ≡ ok x)
        × (mutex_pre_lock_callback x info ≡ ok x)
        × (mutex_post_lock_callback x info ≡ ok x)
        × (mutex_unlock_callback x info ≡ ok x)
        × (mutex_read_lock_callback x info ≡ ok x)
        × (mutex_read_unlock_callback x info ≡ ok x)
        × (pthread_join_callback x info ≡ ok x)
  unfolding thread_finish_callback mutex_pre_lock_callback mutex_post_lock_callback
      mutex_unlock_callback mutex_read_lock_callback mutex_read_unlock_callback
      pthread_join_callback
  callbacks_unset realm = (
    record_range_unset realm,
    rw unset refl,
    if-cases (λ y. y ≡ ok x) (ltb (length info) 1) (λ _. refl) (λ _. rw unset refl),
    if-cases (λ y. y ≡ ok x) (ltb (length info) 1) (λ _. refl) (λ _. rw unset refl),
    if-cases (λ y. y ≡ ok x) (ltb (length info) 1) (λ _. refl) (λ _. rw unset refl),
    if-cases (λ y. y ≡ ok x) (ltb (length info) 1) (λ _. refl) (λ _. rw unset refl),
    if-cases (λ y. y ≡ ok x) (ltb (length info) 1) (λ _. refl) (λ _. rw unset refl),
    if-cases (λ y. y ≡ ok x) (ltb (length info) 1) (λ _. refl) (λ _. rw unset refl),
  )

-- The caller now knows of all that another id had known of.
abbrev pub TakesOver : Caller → ℕ → Caller → Type 0
TakesOver x prev y = Le (x.tsan.thread_clocks prev) (y.tsan.thread_clocks (get_current_tid y))

set_tid-TakesOver :
    (x : Caller) (t : WebTSan) (prev new : ℕ)
    → Le (x.tsan.thread_clocks prev) (t.thread_clocks new)
    → let y = set_current_tid (with_tsan x t) new in (get_current_tid y ≡ new) × TakesOver x prev y
unfolding get_current_tid set_current_tid
set_tid-TakesOver x t prev new h = (refl, h)

switch_tid-TakesOver :
    (x : Caller) (prev new : ℕ)
    → x.tsan.enabled ≡ true
    → prev < k_max_threads
    → new < k_max_threads
    → prev ≢ new
    → Returns (λ y. (get_current_tid y ≡ new) × TakesOver x prev y) (switch_tid x prev new)
unfolding switch_tid
switch_tid-TakesOver x prev new on hp hn ne =
    let test : (not (prev == uint32_max) && (not (new == uint32_max) && not (prev == new))) ≡ true =
      ground arith in
    rw (test, thread_absorb-ok x.tsan new prev on hn hp (λ e. ne (sym e)))
      (set_tid-TakesOver x (join_thread x.tsan new (x.tsan.thread_clocks prev)) prev new (
        subst (Le (x.tsan.thread_clocks prev)) (sym (update_same x.tsan.thread_clocks new _))
          (λ i h.
            omega (arith, get-join (x.tsan.thread_clocks new) (x.tsan.thread_clocks prev) i h))))

-- While the detector is enabled: `__webTSanSetCurrentTid` with an id below 64, by a thread that has another
-- one below 64, returns with the new id, and the clock of the new id is at or beyond that of
-- the old one.
pub set_current_tid_callback-TakesOver :
    (x : Caller) (v : JsValue) (rest : List JsValue)
    → let new = from_maybe v.uint32_value uint32_max in
      x.tsan.enabled ≡ true
      → get_current_tid x < k_max_threads
      → new < k_max_threads
      → get_current_tid x ≢ new
      → Returns
          (λ y. (get_current_tid y ≡ new) × TakesOver x (get_current_tid x) y)
          (set_current_tid_callback x (v ∷ rest))
unfolding set_current_tid_callback arg
set_current_tid_callback-TakesOver x v rest on hp hn ne =
    if-cases
      (Returns (λ y.
        (get_current_tid y ≡ from_maybe v.uint32_value uint32_max)
        × TakesOver x (get_current_tid x) y))
      (ltb (length (v ∷ rest)) 1)
      (λ e. let h = ltb→lt (length (v ∷ rest)) 1 e in absurd (omega arith))
      (λ _. switch_tid-TakesOver x (get_current_tid x) _ on hp hn ne)
