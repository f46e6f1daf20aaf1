-- ===== src/Futex/Wake/Chosen.antt =====
-- Synchronous waiters that are woken one after the other.
use webtsan.Prelude.{
  ℕ, zero, suc, ◌==◌, ◌≡◌, ◌≢◌, ◌≤◌, refl, ap, ap₂, Bool, false, List, [], ◌∷◌, Option, none,
  update, update_other, arith, if◌then◌else◌, take, Bool-cases, inl, inr,
}
use webtsan.Futex.{FutexWaitListNode, FutexWaitList, notified, set_waiting, with_event}
use webtsan.Futex.Links.{Nodes, Linked, Linked-frame}
use webtsan.Futex.Links.Members.{has}
use webtsan.Futex.Wake.{k_wake_all, one_fewer}

abbrev pub waiting_among : Nodes → List ℕ → List ℕ
waiting_among nodes [] = []
waiting_among nodes (x ∷ xs) =
    if (nodes x).waiting then x ∷ waiting_among nodes xs else waiting_among nodes xs

-- The first `num` of a list, or all.
abbrev pub chosen : ℕ → List ℕ → List ℕ
chosen num xs = if num == k_wake_all then xs else take num xs

abbrev pub woken_waiter : FutexWaitList → ℕ → FutexWaitList
woken_waiter w n = with_event (set_waiting w n false) (notified n)

-- Nodes that are woken one after the other.
abbrev pub woken_waiters : FutexWaitList → List ℕ → FutexWaitList
woken_waiters w [] = w
woken_waiters w (n ∷ ns) = woken_waiters (woken_waiter w n) ns

pub chosen-nil : (num : ℕ) → chosen num [] ≡ []
chosen-nil num = elim (Bool-cases (num == k_wake_all)) [
  | inl e ↦ rw e refl
  | inr e ↦ rw e (take-nil num)
]
  where
    take-nil : (n : ℕ) → take {A = ℕ} n [] ≡ []
    take-nil zero = refl
    take-nil (suc n) = refl

pub chosen-cons :
    (num x : ℕ) (xs : List ℕ)
    → suc num ≤ k_wake_all
    → chosen (suc num) (x ∷ xs) ≡ x ∷ chosen (one_fewer (suc num)) xs
chosen-cons num x xs fits = ground arith

ne_head : (n x : ℕ) (xs : List ℕ) → has n (x ∷ xs) ≡ false → n ≢ x
ne_head n x xs out = ground arith

pub waiting_among-update :
    (nodes : Nodes) (xs : List ℕ) (n : ℕ) (m : FutexWaitListNode)
    → has n xs ≡ false
    → waiting_among (update nodes n m) xs ≡ waiting_among nodes xs
waiting_among-update nodes [] n m out = refl
waiting_among-update nodes (x ∷ xs) n m out =
    let same = update_other nodes n x m (ne_head n x xs out) in
    let rest = waiting_among-update nodes xs n m (ground arith) in
    ap₂ (λ b zs. if b then x ∷ zs else zs) (ap (λ k. k.waiting) same) rest

abbrev pub AllSync : Nodes → List ℕ → Type 0
AllSync nodes [] = Unit
AllSync nodes (x ∷ xs) = ((nodes x).async_state ≡ none) × AllSync nodes xs

pub AllSync-update :
    (nodes : Nodes) (xs : List ℕ) (n : ℕ) (b : Bool)
    → AllSync nodes xs
    → AllSync (update nodes n (record (nodes n) { waiting = b })) xs
AllSync-update nodes [] n b s = tt
AllSync-update nodes (x ∷ xs) n b (e, s) = (ground arith, AllSync-update nodes xs n b s)

-- The links do not change.
pub Linked-woken :
    (w : FutexWaitList) (l n : ℕ) (p : Option ℕ) (q : Option ℕ) (xs : List ℕ)
    → Linked w.nodes l p xs q
    → Linked (woken_waiter w n).nodes l p xs q
Linked-woken w l n p q xs s =
    Linked-frame w.nodes l (woken_waiter w n).nodes p q xs s
      (λ a h. (ground arith, ground arith, ground arith))

pub one_fewer_fits : (num : ℕ) → suc num ≤ k_wake_all → one_fewer (suc num) ≤ k_wake_all
one_fewer_fits num fits = ground arith
