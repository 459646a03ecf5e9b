-- ===== src/Base/Decimal.antt =====
-- The decimal text functions of the C and C++ standard libraries that the program calls:
-- `std::ostream << std::size_t` and `atoi`.
use Prim.Native.Nat.{ℕ, zero, suc, ◌+◌, ◌-◌, ◌*◌, ◌/◌, ◌%◌, ◌^◌, ◌<◌, min}
use mathlib.Core.Path.{◌≡◌, refl, sym, ◌∙◌, ap}
use mathlib.Core.Bool.{Bool, true, false, ◌&&◌, ◌||◌}
use mathlib.Core.List.{List, [], ◌∷◌, ◌++◌}
use native.Mathlib.Omega.{arith}
use mathlib.Core.Logic.{inl, inr}
use redisproxy.Base.Tests.{ltb, leb, ◌==◌, if◌then◌else◌, Bool-cases}
use redisproxy.Base.Memchr.{memchr, Lacks}
use redisproxy.Base.Int.{ℤ, pos, negsuc, to_int32}

-- The digits of `n` in front of `out`, the last one first. Each round divides `n` by ten, so
-- `n + 1` rounds are enough.
pub digits : ℕ → ℕ → List ℕ → List ℕ
digits zero n out = out
digits (suc fuel) n out =
    let rest = digits fuel (n / 10) ((b'0' + n % 10) ∷ out) in
    if ltb n 10 then (b'0' + n) ∷ out else rest

-- `ss << n` of an unsigned number.
unfoldable pub show : ℕ → List ℕ
unfolding digits
show n = digits (n + 1) n []

abbrev pub is_digit : ℕ → Bool
is_digit c = leb b'0' c && leb c b'9'

-- The number that the leading digits spell behind `acc`.
unfoldable pub read_digits : List ℕ → ℕ → ℕ
read_digits [] acc = acc
read_digits (c ∷ s) acc = elim (is_digit c) [
  | true ↦ read_digits s (acc * 10 + (c - b'0'))
  | false ↦ acc
]

-- `isspace` in the C locale.
abbrev pub is_space : ℕ → Bool
is_space c = c == b' ' || leb 9 c && leb c 13

unfoldable pub skip_spaces : List ℕ → List ℕ
skip_spaces [] = []
skip_spaces (c ∷ s) = elim (is_space c) [ true ↦ skip_spaces s | false ↦ c ∷ s ]

abbrev pub negated : ℕ → ℤ
negated zero = pos 0
negated (suc n) = negsuc n

-- The optional sign, and the digits behind it. `strtol` stops at the bounds of a 64-bit `long`.
abbrev pub signed_value : List ℕ → ℤ
signed_value [] = pos 0
signed_value (c ∷ s) =
    if c == b'-'
    then negated (min (read_digits s 0) (2 ^ 63))
    else if c == b'+'
    then pos (min (read_digits s 0) (2 ^ 63 - 1))
    else pos (min (read_digits (c ∷ s) 0) (2 ^ 63 - 1))

-- `atoi` of a text: `strtol` in base ten, narrowed to `int`.
unfoldable pub atoi : List ℕ → ℤ
unfolding skip_spaces read_digits
atoi s = to_int32 (signed_value (skip_spaces s))

digits-append :
    (fuel n : ℕ) (out rest : List ℕ) → digits fuel n out ++ rest ≡ digits fuel n (out ++ rest)
unfolding digits
digits-append zero n out rest = refl
digits-append (suc fuel) n out rest =
    ground (arith, digits-append fuel (n / 10) ((b'0' + n % 10) ∷ out) rest)

read_digits-digits :
    (fuel n : ℕ) (out : List ℕ) → n < fuel → read_digits (digits fuel n out) 0 ≡ read_digits out n
unfolding digits read_digits
read_digits-digits zero n out h = elim h [ ]
read_digits-digits (suc fuel) n out h = elim (Bool-cases (ltb n 10)) [
  | inl small ↦ rw small (ground arith)
  | inr large ↦
      rw large
        (read_digits-digits fuel (n / 10) ((b'0' + n % 10) ∷ out) (ground arith) ∙ ground arith)
]

-- The text of a number starts with a digit.
abbrev StartsWithDigit : List ℕ → Type 0
StartsWithDigit s = (c : ℕ) × (t : List ℕ) × (s ≡ c ∷ t) × (is_digit c ≡ true)

digits-StartsWithDigit :
    (fuel n : ℕ) (out : List ℕ) → n < fuel → StartsWithDigit (digits fuel n out)
unfolding digits
digits-StartsWithDigit zero n out h = elim h [ ]
digits-StartsWithDigit (suc fuel) n out h = elim (Bool-cases (ltb n 10)) [
  | inl small ↦ (b'0' + n, out, rw small, ground arith)
  | inr large ↦
      rw large (digits-StartsWithDigit fuel (n / 10) ((b'0' + n % 10) ∷ out) (ground arith))
]

-- It has digits only.
pub digits-Lacks :
    (c fuel n : ℕ) (out : List ℕ) → is_digit c ≡ false → Lacks c out → Lacks c (digits fuel n out)
unfolding digits memchr
digits-Lacks c zero n out nd h = h
digits-Lacks c (suc fuel) n out nd h =
    ground (arith, digits-Lacks c fuel (n / 10) ((b'0' + n % 10) ∷ out))

pub show-Lacks : (c n : ℕ) → is_digit c ≡ false → Lacks c (show n)
unfolding show memchr
show-Lacks c n nd = digits-Lacks c (n + 1) n [] nd refl

atoi-StartsWithDigit :
    (c : ℕ) (t : List ℕ) (n : ℕ)
    → is_digit c ≡ true
    → read_digits (c ∷ t) 0 ≡ n
    → n < 2 ^ 31
    → atoi (c ∷ t) ≡ pos n
unfolding atoi read_digits
atoi-StartsWithDigit c t n d e small =
    let s : skip_spaces (c ∷ t) ≡ c ∷ t = ground arith in rw (s, e) (ground arith)

-- `atoi` reads back what `<<` prints, up to the first byte that is no digit.
pub atoi-show :
    (n c : ℕ) (rest : List ℕ) → n < 2 ^ 31 → is_digit c ≡ false → atoi (show n ++ c ∷ rest) ≡ pos n
unfolding show read_digits
atoi-show n c rest small nd =
    let s = digits (n + 1) n (c ∷ rest) in
    let (d, t, e, h) = digits-StartsWithDigit (n + 1) n (c ∷ rest) (omega arith) in
    let v : read_digits (d ∷ t) 0 ≡ n =
      ap (λ w. read_digits w 0) (sym e)
      ∙ read_digits-digits (n + 1) n (c ∷ rest) (omega arith)
      ∙ (rw (nd, read_digits)) in
    rw (digits-append (n + 1) n [] (c ∷ rest), e) (atoi-StartsWithDigit d t n h v small)
