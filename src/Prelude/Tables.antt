-- ===== src/Prelude/Tables.antt =====
-- Arrays and hash maps as functions of their index, with an update at one index.
use Prim.Native.Nat.{ℕ}
use mathlib.Core.Path.{◌≡◌}
use mathlib.Core.Logic.{◌≢◌}
use mathlib.Core.Option.{Option, none, some}
use native.Mathlib.Omega.{arith}
use webtsan.Prelude.Tests.{◌==◌, if◌then◌else◌}

module _ {ℓ} {A : Type ℓ} where
  abbrev pub update : (ℕ → A) → ℕ → A → ℕ → A
  update f i a j = if i == j then a else f j

  pub update_same : (f : ℕ → A) (i : ℕ) (a : A) → update f i a i ≡ a
  update_same f i a = ground arith

  pub update_other : (f : ℕ → A) (i j : ℕ) (a : A) → i ≢ j → update f i a j ≡ f j
  update_other f i j a h = ground arith

-- An `unordered_map`: `none` where no entry is kept.
abbrev pub insert {ℓ} : {A : Type ℓ} → (ℕ → Option A) → ℕ → A → ℕ → Option A
insert m k a = update m k (some a)

abbrev pub erase {ℓ} : {A : Type ℓ} → (ℕ → Option A) → ℕ → ℕ → Option A
erase m k = update m k none

-- The value that `m[k]` refers to: a default one where there is no entry.
abbrev pub find_or {ℓ} : {A : Type ℓ} → (ℕ → Option A) → ℕ → A → A
find_or m k d = elim (m k) [ none ↦ d | some a ↦ a ]
