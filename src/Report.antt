-- ===== src/Report.antt =====
-- `RaceReport::ToString` of
-- patches/chromium/new-files/third_party/blink/renderer/core/tsan/web_tsan.cc, as bytes. `%p` prints
-- 0x and the digits of the address.
use webtsan.Prelude.{
  ℕ, zero, suc, ◌+◌, ◌-◌, ◌*◌, ◌^◌, ◌/◌, ◌%◌, ◌≤◌, ◌<◌, ap, ◌≡◌, refl, ◌∙◌, Bool, List, [], ◌∷◌,
  ◌++◌, arith, ltb, ◌==◌, if◌then◌else◌, length, take, length-append, take_all, codes, Bool-cases,
  inl, inr, ==_iff,
}
use webtsan.Shadow.{RaceReport}
use native.Mathlib.Nat.{pow-zero, pow-suc, div-lt_iff_lt-mul, div-add-mod}

-- A digit below 16, as an ASCII byte.
digit : ℕ → ℕ
digit d = if ltb d 10 then 48 + d else 87 + d

-- The digits of `n` in front of `rest`; `fuel` is at least their number.
digits : ℕ → ℕ → ℕ → List ℕ → List ℕ
digits zero base n rest = rest
digits (suc fuel) base n rest =
    let front = digit (n % base) ∷ rest in
    let more = digits fuel base (n / base) front in if n / base == 0 then front else more

-- `%zx` of a size_t and `%p`, `%u` of a uint32_t, and `%zu` and `%llu` of 64 bits: 16, 10 and 20
-- digits are enough.
pub hex : ℕ → List ℕ
hex n = digits 16 16 n []

pub decimal32 : ℕ → List ℕ
decimal32 n = digits 10 10 n []

pub decimal64 : ℕ → List ℕ
decimal64 n = digits 20 10 n []

read_or_write : Bool → List ℕ
read_or_write w = if w then codes "WRITE" else codes "READ"

-- One line `  Access 1: tid=… … epoch=…`.
access_line : List ℕ → ℕ → Bool → ℕ → List ℕ
access_line label tid is_write epoch =
    label
    ++ (decimal32 tid
        ++ (codes " "
            ++ (read_or_write is_write ++ (codes " epoch=" ++ (decimal64 epoch ++ 10 ∷ [])))))

head_line : RaceReport → List ℕ
head_line r =
    codes "DATA RACE detected at SAB offset 0x"
    ++ (hex r.sab_offset
        ++ (codes " (backing_store=0x"
            ++ (hex r.sab_backing_store
                ++ (codes ", size=" ++ (decimal64 r.sab_byte_length ++ (codes "):" ++ 10 ∷ []))))))

-- What the format makes, of any length; 10 is the line feed.
pub message : RaceReport → List ℕ
message r =
    head_line r
    ++ (access_line (codes "  Access 1: tid=") r.tid1 r.is_write1 r.epoch1
        ++ (access_line (codes "  Access 2: tid=") r.tid2 r.is_write2 r.epoch2
            ++ (codes "  (at least one is a write, no happens-before ordering)" ++ 10 ∷ [])))

-- `snprintf` into a buffer of 512 bytes writes at most 511 and the terminator.
pub to_string : RaceReport → List ℕ
to_string r = take 511 (message r)

length-digits :
    (fuel base n : ℕ) (rest : List ℕ) → length (digits fuel base n rest) ≤ fuel + length rest
unfolding digits
length-digits zero base n rest = omega arith
length-digits (suc fuel) base n rest = elim (Bool-cases (n / base == 0)) [
  | inl e ↦ rw e (omega arith)
  | inr e ↦ rw e (omega (arith, length-digits fuel base (n / base) (digit (n % base) ∷ rest)))
]

length-hex : (n : ℕ) → length (hex n) ≤ 16
unfolding hex
length-hex n = omega (arith, length-digits 16 16 n [])

length-decimal32 : (n : ℕ) → length (decimal32 n) ≤ 10
unfolding decimal32
length-decimal32 n = omega (arith, length-digits 10 10 n [])

length-decimal64 : (n : ℕ) → length (decimal64 n) ≤ 20
unfolding decimal64
length-decimal64 n = omega (arith, length-digits 20 10 n [])

length-read_or_write : (w : Bool) → length (read_or_write w) ≤ 5
unfolding read_or_write
length-read_or_write w = ground arith

ruleset lengths = (arith, length-hex, length-decimal32, length-decimal64, length-read_or_write)

length-access_line :
    (label : List ℕ) (tid : ℕ) (w : Bool) (epoch : ℕ)
    → length (access_line label tid w epoch) ≤ length label + 44
unfolding access_line
length-access_line label tid w epoch = simp length-append (omega lengths)

length-head_line : (r : RaceReport) → length (head_line r) ≤ 120
unfolding head_line
length-head_line r = simp length-append (omega lengths)

pub length-message : (r : RaceReport) → length (message r) ≤ 511
unfolding message
length-message r = simp length-append (
    omega (
      arith,
      length-head_line r,
      length-access_line (codes "  Access 1: tid=") r.tid1 r.is_write1 r.epoch1,
      length-access_line (codes "  Access 2: tid=") r.tid2 r.is_write2 r.epoch2,
    ))

-- No report is cut off: the text that `ToString` returns is the whole of what the format makes,
-- whatever the fields of the report.
pub to_string_whole : (r : RaceReport) → to_string r ≡ message r
unfolding to_string
to_string_whole r = take_all 511 (message r) (length-message r)

-- The digit that a byte stands for.
undigit : ℕ → ℕ
undigit c = if ltb c 87 then c - 48 else c - 87

-- The number that digits stand for, with `acc` in front of them.
pub read_digits : ℕ → ℕ → List ℕ → ℕ
read_digits base acc [] = acc
read_digits base acc (c ∷ cs) = read_digits base (acc * base + undigit c) cs

undigit-digit : (d : ℕ) → d < 16 → undigit (digit d) ≡ d
unfolding undigit digit
undigit-digit d h = ground arith

module _ (base : ℕ) (low : 2 ≤ base) (high : base ≤ 16) where
  small_quotient : (fuel n : ℕ) → n < base ^ suc fuel → n / base < base ^ fuel
  small_quotient fuel n h = (div-lt_iff_lt-mul (omega arith)).1 (rw (pow-suc base fuel) at h)

  step_value : (n : ℕ) → n / base * base + undigit (digit (n % base)) ≡ n
  step_value n = omega (arith, undigit-digit (n % base) (omega arith), div-add-mod n base)

  read_digits-digits :
      (fuel n : ℕ) (rest : List ℕ)
      → n < base ^ fuel
      → read_digits base 0 (digits fuel base n rest) ≡ read_digits base n rest
  unfolding digits read_digits
  read_digits-digits zero n rest h =
      let e : 0 ≡ n = omega (arith, pow-zero base) in ap (λ x. read_digits base x rest) e
  read_digits-digits (suc fuel) n rest h = elim (Bool-cases (n / base == 0)) [
    | inl e ↦ rw e (
        ap (λ x. read_digits base x rest)
          (let z : n / base ≡ 0 = (==_iff (n / base) 0).0 e in rw z at (step_value n)))
    | inr e ↦ rw e (
        read_digits-digits fuel (n / base) (digit (n % base) ∷ rest) (small_quotient fuel n h)
        ∙ ap (λ x. read_digits base x rest) (step_value n))
  ]

-- The digits that a report prints are enough: reading them back gives the number, for a size_t or a
-- pointer in base 16, a uint32_t in base 10, and a 64-bit size or epoch in base 10.
pub digits_roundtrip :
    (n : ℕ)
    → n < 2 ^ 64
    → (read_digits 16 0 (hex n) ≡ n)
      × (read_digits 10 0 (decimal64 n) ≡ n)
      × (n < 2 ^ 32 → read_digits 10 0 (decimal32 n) ≡ n)
unfolding hex decimal64 decimal32
digits_roundtrip n h = (
  read_digits-digits 16 (omega arith) (omega arith) 16 n [] (omega arith)
      ∙ unfold read_digits in refl,
  read_digits-digits 10 (omega arith) (omega arith) 20 n [] (omega arith)
      ∙ unfold read_digits in refl,
  λ small.
      read_digits-digits 10 (omega arith) (omega arith) 10 n [] (omega arith)
      ∙ unfold read_digits in refl,
)
