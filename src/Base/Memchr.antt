-- ===== src/Base/Memchr.antt =====
-- `memchr` of the C library: the position of the first byte `c`.
use Prim.Native.Nat.{ℕ, zero, suc, ◌+◌, ◌<◌}
use mathlib.Core.Path.{◌≡◌, refl}
use mathlib.Core.Logic.{◌≢◌}
use mathlib.Core.Option.{Option, none, some}
use mathlib.Core.List.{List, [], ◌∷◌, ◌++◌}
use native.Mathlib.Omega.{arith}
use redisproxy.Base.Tests.{◌==◌, if◌then◌else◌}
use redisproxy.Base.Lists.{length, get_or}

abbrev pub shift : Option ℕ → Option ℕ
shift none = none
shift (some i) = some (i + 1)

unfoldable pub memchr : List ℕ → ℕ → Option ℕ
memchr [] c = none
memchr (x ∷ xs) c = if x == c then some 0 else shift (memchr xs c)

-- The list has no byte `c`.
abbrev pub Lacks : ℕ → List ℕ → Type 0
Lacks c xs = memchr xs c ≡ none

pub memchr-append :
    (c : ℕ) (xs ys : List ℕ) → Lacks c xs → memchr (xs ++ c ∷ ys) c ≡ some (length xs)
unfolding memchr
memchr-append c [] ys h = ground arith
memchr-append c (x ∷ xs) ys h = ground (arith, memchr-append c xs ys)

pub Lacks-append : (c : ℕ) (xs ys : List ℕ) → Lacks c xs → Lacks c ys → Lacks c (xs ++ ys)
unfolding memchr
Lacks-append c [] ys h k = k
Lacks-append c (x ∷ xs) ys h k = ground (arith, Lacks-append c xs ys)

-- A position that is found lies inside, and holds the byte.
pub memchr_sound :
    (c : ℕ) (xs : List ℕ) (i : ℕ) → memchr xs c ≡ some i → (i < length xs) × (get_or xs i 0 ≡ c)
unfolding memchr
memchr_sound c [] i h = ground arith
memchr_sound c (x ∷ xs) zero h = ground arith
memchr_sound c (x ∷ xs) (suc i) h = ground (arith, memchr_sound c xs i)

pub Lacks-cons : (c x : ℕ) (xs : List ℕ) → x ≢ c → Lacks c xs → Lacks c (x ∷ xs)
unfolding memchr
Lacks-cons c x xs ne h = ground arith

pub Lacks-nil : (c : ℕ) → Lacks c []
unfolding memchr
Lacks-nil c = refl
