-- ===== src/Workers/Buffers.antt =====
-- The shadow of a backing store that is destroyed.
use webtsan.Prelude.{
  if◌then◌else◌, Bool, false, Bool-cases, inl, inr, refl, ℕ, ◌≡◌, ◌≢◌, true, none, arith, ◌==◌, not,
  ◌&&◌,
}
use webtsan.Buffers.Results.{remove_shadow-none, remove_shadow-buffers}
use webtsan.Caller.{Caller}
use webtsan.Callbacks.{callbacks}
use webtsan.Workers.{destroy_backing_store}

-- With the flag set, the callbacks registered and the detector enabled: when a shared backing store is destroyed
-- its shadow is gone, so that a store that comes to lie at its place starts without one.
pub destroy_backing_store-none :
    (x : Caller) (start : ℕ)
    → x.tsan.enabled ≡ true
    → start ≢ 0
    → (destroy_backing_store true callbacks x true start).tsan.shadow_buffers start ≡ none
unfolding destroy_backing_store
destroy_backing_store-none x start on some_start =
    let test : (true && (true && not (start == 0))) ≡ true = ground arith in
    rw test (remove_shadow-none x.tsan start on)

-- With the flag set, the callbacks registered and the detector enabled, the shadow of a shared store that is
-- somewhere is removed, and that of every other store stays.
pub destroy_backing_store-buffers :
    (x : Caller) (shared : Bool) (start a : ℕ)
    → x.tsan.enabled ≡ true
    → (destroy_backing_store true callbacks x shared start).tsan.shadow_buffers a
      ≡ (if shared && not (start == 0) && (a == start) then none else x.tsan.shadow_buffers a)
unfolding destroy_backing_store
destroy_backing_store-buffers x false start a on = refl
destroy_backing_store-buffers x true start a on = elim (Bool-cases (start == 0)) [
  | inl e ↦ rw e refl
  | inr e ↦ rw e (remove_shadow-buffers x.tsan start a on)
]
