-- ===== src/Runtime/Off.antt =====
-- The runtime functions where WebTSan does not run.
use webtsan.Prelude.{ℕ, ◌≡◌, refl, Bool, true, false, ok, if-cases, not, uint32_max, some}
use webtsan.Caller.{Caller, get_current_tid}
use webtsan.Hooks.{on_atomics_load, on_atomics_store, on_atomics_rmw}
use webtsan.Callbacks.{WebTSanCallbacks, Callback2, callbacks, no_callbacks}
use webtsan.Console.{Realm}
use webtsan.Runtime.{
  JsTypedArray, get_tid, record_typed_access, record_read, record_write, atomic_access,
  atomics_load, atomics_store, atomics_rmw,
}

-- Each of the five runtime functions leaves the state as it is.
abbrev pub IsOff : Bool → WebTSanCallbacks → Realm → Caller → JsTypedArray → ℕ → Type 0
IsOff flag cbs realm x array index =
    (record_read flag cbs realm x array index ≡ ok x)
    × (record_write flag cbs realm x array index ≡ ok x)
    × (atomics_load flag cbs realm x array index ≡ ok x)
    × (atomics_store flag cbs realm x array index ≡ ok x)
    × (atomics_rmw flag cbs realm x array index ≡ ok x)

module _ (realm : Realm) (x : Caller) (array : JsTypedArray) (index : ℕ) where
  unset_access :
      (w : ℕ)
      → get_current_tid x ≡ uint32_max
      → record_typed_access true callbacks realm x array index w ≡ ok x
  unfolding record_typed_access get_tid
  unset_access w unset =
      if-cases (λ y. y ≡ ok x) (not array.is_shared) (λ _. refl) (λ _. rw unset refl)

  unset_atomic :
      (f : Callback2)
      → get_current_tid x ≡ uint32_max
      → atomic_access true callbacks realm (some f) x array index ≡ ok x
  unfolding atomic_access get_tid
  unset_atomic f unset =
      if-cases (λ y. y ≡ ok x) (not array.is_shared) (λ _. refl) (λ _. rw unset refl)

  -- Without the flag, with it but before the callbacks are registered, and after that in a thread that has no
  -- id, the runtime functions for typed arrays leave the state as it is.
  pub runtime-IsOff :
      (cbs : WebTSanCallbacks)
      → get_current_tid x ≡ uint32_max
      → IsOff false cbs realm x array index
        × IsOff true no_callbacks realm x array index
        × IsOff true callbacks realm x array index
  unfolding record_read record_write atomics_load atomics_store atomics_rmw record_typed_access
      atomic_access
  runtime-IsOff cbs unset = (
    (refl, refl, refl, refl, refl),
    (refl, refl, refl, refl, refl),
    (
      unset_access 0 unset,
      unset_access 1 unset,
      unset_atomic on_atomics_load unset,
      unset_atomic on_atomics_store unset,
      unset_atomic on_atomics_rmw unset,
    ),
  )
