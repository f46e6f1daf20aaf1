-- ===== src/Callbacks/Start.antt =====
-- The start of the detector.
use webtsan.Prelude.{ℕ, ◌<◌, ◌≡◌, refl, true, false, uint32_max, ok, Returns, subst}
use webtsan.Clock.{k_max_threads}
use webtsan.Detector.{WebTSan, enable}
use webtsan.Epochs.{EpochsAreReached, HasRoom, EpochsAreReached-flags}
use webtsan.Threads.Slots.{slot, thread_create-slot}
use webtsan.Threads.Create.{start_thread-alive}
use webtsan.Threads.Epochs.{thread_create-EpochsAreReached}
use webtsan.Caller.{Caller, get_current_tid, set_current_tid}
use webtsan.Callbacks.{WebTSanCallbacks, callbacks, initialize_web_tsan}

-- The detector runs, the current thread has a slot that is alive, and V8 has the callbacks.
pub record IsStarted (cbs : WebTSanCallbacks) (x : Caller) : Type 0 where
  pub registered : cbs ≡ callbacks
  pub on : x.tsan.enabled ≡ true
  pub has_slot : get_current_tid x < k_max_threads
  pub alive : x.tsan.thread_alive (get_current_tid x) ≡ true
  pub epochs : EpochsAreReached x.tsan

-- In a state whose epochs are reached, with a free slot and room for an epoch: with the switch the start
-- returns, the detector runs with the current thread in a live slot and its epochs are reached;
-- without the switch nothing changes.
pub initialize_web_tsan-IsStarted :
    (cbs : WebTSanCallbacks) (x : Caller) (c : ℕ)
    → EpochsAreReached x.tsan
    → HasRoom x.tsan
    → c < k_max_threads
    → x.tsan.thread_alive c ≡ false
    → Returns (λ r. IsStarted r.0 r.1) (initialize_web_tsan true cbs x)
      × (initialize_web_tsan false cbs x ≡ ok (cbs, x))
unfolding initialize_web_tsan enable set_current_tid get_current_tid
initialize_web_tsan-IsStarted cbs x c v room lt dead =
    let made = thread_create-slot t uint32_max w.next_small in
    (
      rw made.0 (record {
        registered = refl;
        on = (start_thread-alive t (slot t) uint32_max).1;
        has_slot = made.1;
        alive = (start_thread-alive t (slot t) uint32_max).0;
        epochs =
            (subst (Returns (λ r. EpochsAreReached r.0)) made.0
              (thread_create-EpochsAreReached t w uint32_max c room lt dead));
      }),
      refl,
    )
  where
    t : WebTSan
    t = record (x.tsan) { enabled = true }

    w : EpochsAreReached t
    w = EpochsAreReached-flags x.tsan _ _ _ v
