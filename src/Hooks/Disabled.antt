-- ===== src/Hooks/Disabled.antt =====
-- The hooks while the detector is disabled.
use webtsan.Prelude.{ℕ, ◌≡◌, Bool, false, ok}
use webtsan.Caller.{Caller}
use webtsan.Hooks.{
  on_sab_access, on_sab_range_unsuppressed, on_atomics_wait_complete, on_atomics_notify,
  on_atomics_store, on_atomics_load, on_atomics_rmw, on_post_message_receive, on_mutex_pre_lock,
  on_mutex_post_lock, on_mutex_unlock, on_mutex_read_lock, on_mutex_read_unlock, on_pthread_join,
  on_mutex_create, on_mutex_destroy, on_pthread_detach, on_post_message_send,
}

module _ (x : Caller) (off : x.tsan.enabled ≡ false) where
  accesses_disabled :
      (store len offset size tid : ℕ) (w : Bool)
      → (on_sab_access x store len offset size tid w ≡ ok x)
        × (on_sab_range_unsuppressed x store len offset size tid w ≡ ok x)
  unfolding on_sab_access on_sab_range_unsuppressed
  accesses_disabled store len offset size tid w = (simp (off), simp (off))

  -- While the detector is disabled, the hooks on accesses, atomics, messages, mutexes, and the join and
  -- detach of threads change nothing, and a message that is sent is given the edge 0.
  pub hooks_disabled :
      (store len offset size tid a b : ℕ) (w : Bool)
      → (on_sab_access x store len offset size tid w ≡ ok x)
        × (on_sab_range_unsuppressed x store len offset size tid w ≡ ok x)
        × (on_post_message_send x a ≡ ok (x, 0))
        × (on_atomics_wait_complete x a b ≡ ok x)
        × (on_atomics_notify x a b ≡ ok x)
        × (on_atomics_store x a b ≡ ok x)
        × (on_atomics_load x a b ≡ ok x)
        × (on_atomics_rmw x a b ≡ ok x)
        × (on_post_message_receive x a b ≡ ok x)
        × (on_mutex_pre_lock x a b ≡ ok x)
        × (on_mutex_post_lock x a b ≡ ok x)
        × (on_mutex_unlock x a b ≡ ok x)
        × (on_mutex_read_lock x a b ≡ ok x)
        × (on_mutex_read_unlock x a b ≡ ok x)
        × (on_pthread_join x a b ≡ ok x)
        × (on_mutex_create x a ≡ ok x)
        × (on_mutex_destroy x a ≡ ok x)
        × (on_pthread_detach x a ≡ ok x)
  unfolding on_atomics_wait_complete on_atomics_notify on_atomics_store on_atomics_load
      on_atomics_rmw on_post_message_receive on_mutex_pre_lock on_mutex_post_lock on_mutex_unlock
      on_mutex_read_lock on_mutex_read_unlock on_pthread_join on_mutex_create on_mutex_destroy
      on_pthread_detach on_post_message_send
  hooks_disabled store len offset size tid a b w =
      let (p, q) = accesses_disabled store len offset size tid w in
      (
        p,
        q,
        simp (off),
        simp (off),
        simp (off),
        simp (off),
        simp (off),
        simp (off),
        simp (off),
        simp (off),
        simp (off),
        simp (off),
        simp (off),
        simp (off),
        simp (off),
        simp (off),
        simp (off),
        simp (off),
      )
