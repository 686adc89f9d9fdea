-- ===== src/Base/Text.antt =====
-- Strings that the program compares whole, joins, and prints numbers into.
use Prim.Native.Nat.{ℕ, zero, suc, ◌/◌, ◌%◌}
use Prim.Native.String.{String, ◌++◌, len}
use mathlib.Core.Path.{◌≡◌, refl}
use mathlib.Core.Bool.{Bool, true, false, not, ◌&&◌, ◌||◌}
use mathlib.Core.List.{List}
use mathlib.Core.Option.{Option, none, some}
use Prim.Native.Char.{code}
use text.Mathlib.Text.{◌==◌}
use text.Mathlib.TextEquality.{eq_iff}
use vector_transfer.Base.Int.{ℤ, pos, negsuc}
use vector_transfer.Base.Tests.{ltb, leb, eqb, if◌then◌else◌}

infix 50 ◌!=◌
abbrev pub ◌!=◌ : String → String → Bool
a != b = not (a == b)

-- Concatenation, `a + b` in the source.
infixr 60 ◌<>◌
abbrev pub ◌<>◌ : String → String → String
a <> b = ◌++◌ a b

-- len(s), in bytes.
abbrev pub byte_length : String → ℕ
byte_length = len

-- The code points of a text.
unfoldable pub codes : String → List ℕ
codes String.[] = List.[]
codes (String.◌∷◌ c s) = List.◌∷◌ (code c) (codes s)

-- `unicode.IsSpace`.
abbrev is_space : ℕ → Bool
is_space x =
    (leb 9 x && leb x 13)
    || eqb x 32
    || eqb x 133
    || eqb x 160
    || eqb x 5760
    || (leb 8192 x && leb x 8202)
    || eqb x 8232
    || eqb x 8233
    || eqb x 8239
    || eqb x 8287
    || eqb x 12288

trim_left : String → String
trim_left String.[] = String.[]
trim_left (String.◌∷◌ c s) =
    let rest = trim_left s in if is_space (code c) then rest else String.◌∷◌ c s

is_empty : String → Bool
is_empty String.[] = true
is_empty (String.◌∷◌ c s) = false

trim_right : String → String
unfolding is_empty
trim_right String.[] = String.[]
trim_right (String.◌∷◌ c s) =
    let rest = trim_right s in
    if is_space (code c) && is_empty rest then String.[] else String.◌∷◌ c rest

-- `strings.TrimSpace`.
unfoldable pub trim_space : String → String
unfolding trim_left trim_right
trim_space s = trim_right (trim_left s)

pub ==_refl : (a : String) → (a == a) ≡ true
==_refl a = (eq_iff a a).1 refl

pub ==_sound : (a b : String) → (a == b) ≡ true → a ≡ b
==_sound a b h = (eq_iff a b).0 h

pub String-discrete : Discrete String
String-discrete a b = decide_by (a == b) refl
  where
    decide_by : (t : Bool) → (a == b) ≡ t → Dec (a ≡ b)
    decide_by true e = yes ((eq_iff a b).0 e)
    decide_by false e = no (λ p. cc ((eq_iff a b).1 p))

digit : ℕ → String
digit zero = "0"
digit (suc zero) = "1"
digit (suc (suc zero)) = "2"
digit (suc (suc (suc zero))) = "3"
digit (suc (suc (suc (suc zero)))) = "4"
digit (suc (suc (suc (suc (suc zero))))) = "5"
digit (suc (suc (suc (suc (suc (suc zero)))))) = "6"
digit (suc (suc (suc (suc (suc (suc (suc zero))))))) = "7"
digit (suc (suc (suc (suc (suc (suc (suc (suc zero)))))))) = "8"
digit other = "9"

-- Each round removes a digit, so `n + 1` rounds are enough for `n`.
decimal_rounds : ℕ → ℕ → String
unfolding digit
decimal_rounds zero n = ""
decimal_rounds (suc fuel) n =
    let front = decimal_rounds fuel (n / 10) in
    if ltb n 10 then digit n else front <> digit (n % 10)

-- The `%d` of the source's formats.
unfoldable pub decimal : ℕ → String
unfolding decimal_rounds
decimal n = decimal_rounds (suc n) n

unfoldable pub decimal_ℤ : ℤ → String
unfolding decimal
decimal_ℤ (pos n) = decimal n
decimal_ℤ (negsuc n) = "-" <> decimal (suc n)

decimal_405 : decimal 405 ≡ "405"
unfolding decimal
decimal_405 = refl

-- strings.CutPrefix: the rest of a text that has the prefix.
unfoldable pub cut_prefix : String → String → Option String
cut_prefix String.[] s = some s
cut_prefix (String.◌∷◌ c p) String.[] = none
cut_prefix (String.◌∷◌ c p) (String.◌∷◌ d s) =
    let rest = cut_prefix p s in if eqb (code c) (code d) then rest else none

-- strings.TrimRight of one character.
unfoldable pub trim_right_code : ℕ → String → String
unfolding is_empty
trim_right_code x String.[] = String.[]
trim_right_code x (String.◌∷◌ c s) =
    let rest = trim_right_code x s in
    if eqb (code c) x && is_empty rest then String.[] else String.◌∷◌ c rest
