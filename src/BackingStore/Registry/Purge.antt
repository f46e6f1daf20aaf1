-- ===== src/BackingStore/Registry/Purge.antt =====
-- `Purge` on all memories that are registered.
use webtsan.Prelude.{
  ℕ, ◌==◌, ◌≡◌, refl, Bool, true, false, not, ◌&&◌, ◌||◌, List, [], ◌∷◌, Option, none, some, update,
  arith, if-cases, ok, Returns, Returns-bind, Returns-map, ◌∙◌, ap,
}
use webtsan.Futex.Links.Members.{has}
use webtsan.BackingStore.{BackingStore}
use webtsan.BackingStore.Registry.{
  Registry, set_store, purge_store, purge_alive, purge_entry, purge_entries, purge,
}
use webtsan.BackingStore.Registry.Stores.{isolates_of, IsSound, IsStorePurged, purge_kind}

abbrev pub sharers_of : Option BackingStore → List ℕ
sharers_of none = []
sharers_of (some b) = isolates_of b.type_specific_data

abbrev pub ids : List (ℕ × ℕ) → List ℕ
ids [] = []
ids ((k, s) ∷ es) = s ∷ ids es

abbrev pub IsSoundIf : Option BackingStore → Type 0
IsSoundIf none = Unit
IsSoundIf (some b) = IsSound b

abbrev pub AllSound : List (ℕ × ℕ) → Registry → Type 0
AllSound es r = (s : ℕ) → has s (ids es) ≡ true → IsSoundIf (r.stores s)

-- The isolate is gone from the stores of the entries; all else is as before.
abbrev pub IsPurged : ℕ → List (ℕ × ℕ) → Registry → Registry → Type 0
IsPurged x es r r1 =
    (s y : ℕ)
    → has y (sharers_of (r1.stores s))
      ≡ (not (has s (ids es) && (y == x)) && has y (sharers_of (r.stores s)))

AtEntry : ℕ → List (ℕ × ℕ) → ℕ → Registry → Registry → Type 0
AtEntry x es s r r1 =
    (r1.map ≡ r.map)
    × AllSound es r1
    × ((t : ℕ)
        → (y : ℕ)
        → has y (sharers_of (r1.stores t))
          ≡ (not ((t == s) && (y == x)) && has y (sharers_of (r.stores t))))

unchanged : (c h : Bool) → (c ≡ true → h ≡ false) → h ≡ (not c && h)
unchanged c h out = ground arith

gone_sharers :
    (r : Registry) (s t x y : ℕ)
    → r.stores s ≡ none
    → ((t == s) && (y == x)) ≡ true
    → has y (sharers_of (r.stores t)) ≡ false
gone_sharers r s t x y same h =
    let there : t ≡ s = ground arith in
    ap (λ (u : ℕ). has y (sharers_of (r.stores u))) there ∙ ap (λ o. has y (sharers_of o)) same

at_store :
    (t s x y : ℕ) (now before there : Bool)
    → s ≡ t
    → now ≡ (not (y == x) && before)
    → there ≡ before
    → now ≡ (not ((t == s) && (y == x)) && there)
at_store t s x y now before there same n b = ground arith

purged-IsSound : (x : ℕ) (b b1 : BackingStore) → IsStorePurged x b b1 → IsSound b1
unfolding IsStorePurged
purged-IsSound x b b1 (sound, removed) = sound

purged_sharers :
    (r : Registry) (s t x y : ℕ) (b b1 : BackingStore)
    → r.stores s ≡ some b
    → IsStorePurged x b b1
    → has y (sharers_of (update r.stores s (some b1) t))
      ≡ (not ((t == s) && (y == x)) && has y (sharers_of (r.stores t)))
unfolding IsStorePurged
purged_sharers r s t x y b b1 same (sound, removed) =
    if-cases
      (λ (o : Option BackingStore).
        has y (sharers_of o) ≡ (not ((t == s) && (y == x)) && has y (sharers_of (r.stores t))))
      (s == t)
      (λ e.
        let there : s ≡ t = ground arith in
        let before = ap (λ (u : ℕ). has y (sharers_of (r.stores u))) there in
        let kept = ap (λ o. has y (sharers_of o)) same in
        let now = removed y in
        at_store t s x y (has y (isolates_of b1.type_specific_data))
          (has y (isolates_of b.type_specific_data)) (has y (sharers_of (r.stores t))) there now
          (cc (before, kept)))
      (λ e. unchanged _ _ (λ c. absurd (ground arith)))

purge_alive-AtEntry :
    (x s : ℕ) (es : List (ℕ × ℕ)) (r : Registry) (o : Option BackingStore)
    → r.stores s ≡ o
    → IsSoundIf o
    → AllSound es r
    → Returns (AtEntry x es s r) (purge_alive x r s o)
unfolding AtEntry
purge_alive-AtEntry x s es r none same sound all =
    (refl, all, λ t y. unchanged _ _ (gone_sharers r s t x y same))
purge_alive-AtEntry x s es r (some b) same (wasm, sound) all =
    Returns-bind (IsStorePurged x b) (AtEntry x es s r) (purge_store x b)
      (λ b1. ok (set_store r s b1))
      (purge_kind x b b.type_specific_data b.is_shared wasm refl sound refl)
      (λ b1 h. (
        refl,
        λ t listed. if-cases IsSoundIf (s == t) (λ _. purged-IsSound x b b1 h) (λ _. all t listed),
        λ t y. purged_sharers r s t x y b b1 same h,
      ))

AtEntry-AllSound :
    (x : ℕ) (es : List (ℕ × ℕ)) (s : ℕ) (r r1 : Registry) → AtEntry x es s r r1 → AllSound es r1
unfolding AtEntry
AtEntry-AllSound x es s r r1 (same, sound, there) = sound

purged_twice :
    (x s : ℕ) (es : List (ℕ × ℕ)) (r r1 r2 : Registry)
    → AtEntry x es s r r1
    → (t y : ℕ)
    → has y (sharers_of (r2.stores t))
      ≡ (not (has t (ids es) && (y == x)) && has y (sharers_of (r1.stores t)))
    → has y (sharers_of (r2.stores t))
      ≡ (not (((t == s) || has t (ids es)) && (y == x)) && has y (sharers_of (r.stores t)))
unfolding AtEntry
purged_twice x s es r r1 r2 (same, sound, first) t y later =
    let earlier = first t y in ground (arith, later, earlier)

purge_entries-IsPurged :
    (x : ℕ) (es : List (ℕ × ℕ)) (r : Registry)
    → AllSound es r
    → Returns (IsPurged x es r) (purge_entries x es r)
unfolding purge_entries
purge_entries-IsPurged x [] r all = λ s y. refl
purge_entries-IsPurged x ((k, s) ∷ es) r all =
    Returns-bind (AtEntry x es s r) (IsPurged x ((k, s) ∷ es) r) (purge_entry x r s)
      (purge_entries x es)
      (purge_alive-AtEntry x s es r (r.stores s) refl (all s (ground arith))
        (λ t h. all t (ground arith)))
      (λ r1 h.
        Returns-map (IsPurged x es r1) (IsPurged x ((k, s) ∷ es) r) (purge_entries x es r1)
          (λ r2 later t y. purged_twice x s es r r1 r2 h t y (later t y))
          (purge_entries-IsPurged x es r1 (AtEntry-AllSound x es s r r1 h)))

-- Where the memories that are registered are sound, Purge returns, the isolate is no longer among those
-- that share one of them, and all other isolates share what they shared.
pub purge-IsPurged :
    (r : Registry) (x : ℕ) → AllSound r.map r → Returns (IsPurged x r.map r) (purge r x)
unfolding purge
purge-IsPurged r x all = purge_entries-IsPurged x r.map r all
