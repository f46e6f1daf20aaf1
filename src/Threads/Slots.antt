-- ===== src/Threads/Slots.antt =====
-- The slot that `ThreadCreate` takes.
use webtsan.Prelude.{
  ℕ, zero, suc, ◌+◌, ◌-◌, ◌%◌, ◌<◌, ◌≤◌, ◌≡◌, refl, subst, true, false, arith, Bool-cases, inl, inr,
  ok, lt→ltb,
}
use native.Mathlib.Decide.{ℕ_discrete}
use webtsan.Clock.{k_max_threads}
use webtsan.Detector.{WebTSan}
use webtsan.Threads.{find_slot, start_thread, thread_create}

pub find_slot-lt :
    (n i : ℕ) (t : WebTSan) (tid : ℕ) → tid < k_max_threads → find_slot n i t tid < k_max_threads
unfolding find_slot
find_slot-lt zero i t tid h = h
find_slot-lt (suc n) i t tid h = elim (Bool-cases (t.thread_alive ((t.next_tid + i) % 64))) [
  | inl e ↦ rw e (find_slot-lt n (suc i) t tid h)
  | inr e ↦ rw e (omega arith)
]

find_slot-free :
    (n i : ℕ) (t : WebTSan) (tid k : ℕ)
    → i ≤ k
    → k < i + n
    → t.thread_alive ((t.next_tid + k) % 64) ≡ false
    → t.thread_alive (find_slot n i t tid) ≡ false
unfolding find_slot
find_slot-free zero i t tid k lo hi dead = absurd (omega arith)
find_slot-free (suc n) i t tid k lo hi dead =
    elim (Bool-cases (t.thread_alive ((t.next_tid + i) % 64))) [
      | inl e ↦ elim (ℕ_discrete i k) [
        | yes same ↦ cc (subst (λ x. t.thread_alive ((t.next_tid + x) % 64) ≡ true) same e)
        | no other ↦ rw e (find_slot-free n (suc i) t tid k (omega arith) (omega arith) dead)
      ]
      | inr e ↦ rw e e
    ]

find_slot-full :
    (n i : ℕ) (t : WebTSan) (tid : ℕ)
    → ((k : ℕ) → k < 64 → t.thread_alive k ≡ true)
    → find_slot n i t tid ≡ tid
unfolding find_slot
find_slot-full zero i t tid full = refl
find_slot-full (suc n) i t tid full =
    rw (full ((t.next_tid + i) % 64) (omega arith)) (find_slot-full n (suc i) t tid full)

-- The slot of the next thread.
abbrev pub slot : WebTSan → ℕ
slot t = find_slot k_max_threads 0 t t.next_tid

pub slot-lt : (t : WebTSan) → t.next_tid < k_max_threads → slot t < k_max_threads
slot-lt t h = find_slot-lt 64 0 t t.next_tid h

pub slot-free :
    (t : WebTSan) (c : ℕ)
    → t.next_tid < k_max_threads
    → c < k_max_threads
    → t.thread_alive c ≡ false
    → t.thread_alive (slot t) ≡ false
slot-free t c h lt dead =
    find_slot-free 64 0 t t.next_tid ((c + 64 - t.next_tid) % 64) (omega arith) (omega arith)
      (let e : (t.next_tid + (c + 64 - t.next_tid) % 64) % 64 ≡ c = omega arith in rw e dead)

pub slot-full :
    (t : WebTSan) → ((k : ℕ) → k < k_max_threads → t.thread_alive k ≡ true) → slot t ≡ t.next_tid
slot-full t full = find_slot-full 64 0 t t.next_tid full

-- While `next_tid_` is below 64, the CHECK of `ThreadCreate` always passes: the call creates a thread
-- whose id is below 64, whether or not a slot is free. Where a slot is free the id is of a free slot.
-- Where all 64 slots are alive the id is `next_tid_`, of a thread that is alive.
pub thread_create-slot :
    (t : WebTSan) (parent_tid : ℕ)
    → t.next_tid < k_max_threads
    → (thread_create t parent_tid ≡ ok (start_thread t (slot t) parent_tid, slot t))
      × (slot t < k_max_threads)
      × ((c : ℕ) → c < k_max_threads → t.thread_alive c ≡ false → t.thread_alive (slot t) ≡ false)
      × (((c : ℕ) → c < k_max_threads → t.thread_alive c ≡ true)
          → (slot t ≡ t.next_tid) × (t.thread_alive (slot t) ≡ true))
unfolding thread_create
thread_create-slot t parent_tid h = (
  rw (lt→ltb (slot t) 64 (slot-lt t h)),
  slot-lt t h,
  λ c lt dead. slot-free t c h lt dead,
  λ full. (slot-full t full, full (slot t) (slot-lt t h)),
)
