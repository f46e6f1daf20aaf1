-- ===== src/Globals/Install.antt =====
-- `InstallWebTSanGlobals` of
-- patches/chromium/new-files/third_party/blink/renderer/core/tsan/web_tsan_init.cc: the names of the
-- functions of a page on its global object.
use native.Mathlib.Decide.{ℕ_discrete}
use webtsan.Prelude.{
  ℕ, zero, suc, Bool, true, false, not, List, [], ◌∷◌, ◌==◌, if◌then◌else◌, ◌≡◌, refl, inl, inr,
  Bool-cases, if-cases, ◌∙◌, sym, ap, ==_iff, ◌≢◌, arith,
}
use webtsan.Caller.{Caller}

-- `__webTSanClearShadow` and so on.
pub data Global : Type 0 where
  clear_shadow push_suppress pop_suppress record_range thread_finish : Global
  mutex_create mutex_destroy mutex_pre_lock mutex_post_lock mutex_unlock : Global
  mutex_read_lock mutex_read_unlock : Global
  pthread_create set_current_tid pthread_join pthread_detach : Global

-- The order in which they are installed.
abbrev pub position : Global → ℕ
position clear_shadow = 0
position push_suppress = 1
position pop_suppress = 2
position record_range = 3
position thread_finish = 4
position mutex_create = 5
position mutex_destroy = 6
position mutex_pre_lock = 7
position mutex_post_lock = 8
position mutex_unlock = 9
position mutex_read_lock = 10
position mutex_read_unlock = 11
position pthread_create = 12
position set_current_tid = 13
position pthread_join = 14
position pthread_detach = 15

abbrev pub all_globals : List Global
all_globals =
    clear_shadow ∷ push_suppress ∷ pop_suppress ∷ record_range ∷ thread_finish ∷ mutex_create
    ∷ mutex_destroy ∷ mutex_pre_lock ∷ mutex_post_lock ∷ mutex_unlock ∷ mutex_read_lock
    ∷ mutex_read_unlock ∷ pthread_create ∷ set_current_tid ∷ pthread_join ∷ pthread_detach ∷ []

-- What a name on the global object holds: a function of the page, that of the detector, or another
-- value or none.
pub data Property : Type 0 where
  no_function page_function detector_function : Property

abbrev pub is_function : Property → Bool
is_function no_function = false
is_function page_function = true
is_function detector_function = true

-- `InstallFunction`: a function that is there stays.
pub install_function : (Global → Property) → Global → Global → Property
install_function properties name = if is_function (properties name) then properties else λ other.
    if position other == position name then detector_function else properties other

pub install_functions : List Global → (Global → Property) → Global → Property
install_functions [] properties = properties
install_functions (name ∷ names) properties =
    install_functions names (install_function properties name)

pub install_web_tsan_globals : Caller → (Global → Property) → Global → Property
install_web_tsan_globals x properties =
    if not x.tsan.enabled then properties else install_functions all_globals properties

-- What a name holds afterwards.
abbrev pub filled_in : Property → Property
filled_in p = if is_function p then p else detector_function

filled_in-filled_in : (p : Property) → filled_in (filled_in p) ≡ filled_in p
filled_in-filled_in no_function = refl
filled_in-filled_in page_function = refl
filled_in-filled_in detector_function = refl

nth : List Global → ℕ → Global
nth [] n = clear_shadow
nth (g ∷ gs) zero = g
nth (g ∷ gs) (suc n) = nth gs n

-- The name at a position.
named : ℕ → Global
named n = nth all_globals n

named-position : (g : Global) → named (position g) ≡ g
unfolding named nth
named-position clear_shadow = refl
named-position push_suppress = refl
named-position pop_suppress = refl
named-position record_range = refl
named-position thread_finish = refl
named-position mutex_create = refl
named-position mutex_destroy = refl
named-position mutex_pre_lock = refl
named-position mutex_post_lock = refl
named-position mutex_unlock = refl
named-position mutex_read_lock = refl
named-position mutex_read_unlock = refl
named-position pthread_create = refl
named-position set_current_tid = refl
named-position pthread_join = refl
named-position pthread_detach = refl

module _ (properties : Global → Property) (name other : Global) where
  install_function_there :
      position other ≡ position name
      → install_function properties name other ≡ filled_in (properties other)
  unfolding install_function
  install_function_there e =
      let same : other ≡ name = sym (named-position other) ∙ ap named e ∙ named-position name in
      rw same (elim (Bool-cases (is_function (properties name))) [
        | inl q ↦ rw (q) refl
        | inr q ↦ rw (q) (rw ((==_iff (position name) (position name)).1 refl) refl)
      ])

  install_function_elsewhere :
      position other ≢ position name → install_function properties name other ≡ properties other
  unfolding install_function
  install_function_elsewhere ne =
      let differs : (position other == position name) ≡ false = ground arith in
      elim (Bool-cases (is_function (properties name))) [
        | inl q ↦ rw (q) refl
        | inr q ↦ rw (q, differs) refl
      ]

mem : Global → List Global → Bool
mem g [] = false
mem g (name ∷ names) = if position g == position name then true else mem g names

install_functions-filled_in :
    (names : List Global) (properties : Global → Property) (g : Global)
    → install_functions names properties g
      ≡ (if mem g names then filled_in (properties g) else properties g)
unfolding install_functions mem
install_functions-filled_in [] properties g = refl
install_functions-filled_in (name ∷ names) properties g =
    install_functions-filled_in names (install_function properties name) g
    ∙ (elim (ℕ_discrete (position g) (position name)) [
      | yes e ↦
          let at = install_function_there properties name g e in
          rw (at, (==_iff (position g) (position name)).1 e)
            (if-cases (λ p. p ≡ filled_in (properties g)) (mem g names)
              (λ _. filled_in-filled_in (properties g)) (λ _. refl))
      | no ne ↦
          let differs : (position g == position name) ≡ false = ground arith in
          rw (install_function_elsewhere properties name g ne, differs) refl
    ])

mem-all_globals : (g : Global) → mem g all_globals ≡ true
unfolding mem
mem-all_globals clear_shadow = refl
mem-all_globals push_suppress = refl
mem-all_globals pop_suppress = refl
mem-all_globals record_range = refl
mem-all_globals thread_finish = refl
mem-all_globals mutex_create = refl
mem-all_globals mutex_destroy = refl
mem-all_globals mutex_pre_lock = refl
mem-all_globals mutex_post_lock = refl
mem-all_globals mutex_unlock = refl
mem-all_globals mutex_read_lock = refl
mem-all_globals mutex_read_unlock = refl
mem-all_globals pthread_create = refl
mem-all_globals set_current_tid = refl
mem-all_globals pthread_join = refl
mem-all_globals pthread_detach = refl

-- While the detector is enabled: each of the sixteen names holds a function afterwards, that which it held
-- where it held one. While it is disabled nothing changes.
pub install_web_tsan_globals-filled_in :
    (x : Caller) (properties : Global → Property) (g : Global)
    → install_web_tsan_globals x properties g
      ≡ (if x.tsan.enabled then filled_in (properties g) else properties g)
unfolding install_web_tsan_globals
install_web_tsan_globals-filled_in x properties g = elim (Bool-cases x.tsan.enabled) [
  | inl on ↦
      simp (on) (install_functions-filled_in all_globals properties g ∙ rw (mem-all_globals g) refl)
  | inr off ↦ simp (off) refl
]
