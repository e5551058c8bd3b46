-- ===== src/Prelude/Int.antt =====
-- Go's 64-bit integers where their sign matters, and `strconv.Atoi` and `FormatInt`.
use Prim.Native.Nat.{ℕ, zero, suc, ◌+◌, ◌-◌, ◌*◌, ◌%◌, ◌^◌}
use Prim.Native.Char.{code}
use Prim.Native.String.{String}
use mathlib.Core.Bool.{Bool, true, false, ◌||◌}
use mathlib.Core.Option.{Option, none, some}
use package.kcp_glbc.Prelude.Tests.{ltb, leb, same, if◌then◌else◌}

-- `negsuc n` is -(n + 1).
pub data ℤ : Type 0 where
  pos : ℕ → ℤ
  negsuc : ℕ → ℤ

abbrev pub neg : ℕ → ℤ
neg zero = pos 0
neg (suc n) = negsuc n

abbrev pub int_eq : ℤ → ℤ → Bool
int_eq (pos a) (pos b) = same a b
int_eq (negsuc a) (negsuc b) = same a b
int_eq _ _ = false

-- `a <= b`
abbrev pub int_leb : ℤ → ℤ → Bool
int_leb (pos a) (pos b) = leb a b
int_leb (pos a) (negsuc b) = false
int_leb (negsuc a) (pos b) = true
int_leb (negsuc a) (negsuc b) = leb b a

unfoldable pub int_mul : ℤ → ℤ → ℤ
int_mul (pos a) (pos b) = pos (a * b)
int_mul (pos a) (negsuc b) = neg (a * suc b)
int_mul (negsuc a) (pos b) = neg (suc a * b)
int_mul (negsuc a) (negsuc b) = pos (suc a * suc b)

-- An integer less a natural number.
unfoldable pub int_sub : ℤ → ℕ → ℤ
int_sub (pos a) b = if leb b a then pos (a - b) else neg (b - a)
int_sub (negsuc a) b = negsuc (a + b)

from_word : ℕ → ℤ
from_word r = if ltb r (2 ^ 63) then pos r else negsuc (2 ^ 64 - 1 - r)

-- Of the integers with the same residue modulo 2 ^ 64, the one that an `int64` holds.
unfoldable pub wrap64 : ℤ → ℤ
unfolding from_word
wrap64 (pos n) = from_word (n % 2 ^ 64)
wrap64 (negsuc n) = from_word (2 ^ 64 - 1 - n % 2 ^ 64)

-- The digits of a text, read with an accumulator; `none` at a character that is no digit.
digits : String → ℕ → Option ℕ
digits String.[] n = some n
digits (String.◌∷◌ c s) n =
    let rest = digits s (n * 10 + (code c - b'0')) in
    if ltb (code c) b'0' || ltb b'9' (code c) then none else rest

-- `strconv.Atoi` returns a number beside its error: 0 for bad syntax, the bound for bad range.
pub record Parsed : Type 0 where
  pub value : ℤ
  pub failed : Bool

abbrev pub bad_syntax : Parsed
bad_syntax = record { value = pos 0; failed = true }

ranged : Bool → Option ℕ → Parsed
ranged minus none = bad_syntax
ranged true (some n) =
    if leb n (2 ^ 63)
    then record { value = neg n; failed = false }
    else record { value = negsuc (2 ^ 63 - 1); failed = true }
ranged false (some n) =
    if ltb n (2 ^ 63)
    then record { value = pos n; failed = false }
    else record { value = pos (2 ^ 63 - 1); failed = true }

unsigned : Bool → String → Parsed
unfolding ranged digits
unsigned minus String.[] = bad_syntax
unsigned minus (String.◌∷◌ c s) = ranged minus (digits (String.◌∷◌ c s) 0)

unfoldable pub atoi : String → Parsed
unfolding unsigned
atoi String.[] = bad_syntax
atoi (String.◌∷◌ c s) =
    if same (code c) b'-'
    then unsigned true s
    else if same (code c) b'+'
    then unsigned false s
    else unsigned false (String.◌∷◌ c s)
