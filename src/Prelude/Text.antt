-- ===== src/Prelude/Text.antt =====
-- The methods of Python's `str` that the program uses, on the ASCII range.
use Prim.Native.Char.{Char, char, code, nul, IsScalar}
use Prim.Native.String.{String}
use mathlib.Core.Path.{◌≡◌, refl}
use mathlib.Core.Logic.{dite}
use native.Mathlib.Decide.{dec_lt}
use mathlib.Core.Bool.{Bool, true, false, ◌&&◌, ◌||◌}
use mathlib.Core.Option.{none, some}
use text.Mathlib.Text.{find?}
use mathlib.Core.List.{List, [], ◌∷◌}
use Prim.Native.Nat.{ℕ, zero, suc, ◌+◌, ◌-◌, ◌<◌, ◌/◌, ◌%◌}
use native.Mathlib.Omega.{arith}
use libre_core_mac_loader.Prelude.Tests.{leb, nat_beq, if◌then◌else◌}

ascii-IsScalar : (n : ℕ) → n < 128 → IsScalar n
ascii-IsScalar n h = ground arith

of_code : ℕ → Char
unfolding dec_lt ascii-IsScalar
of_code n = dite (dec_lt n 128) (λ h. char n (ascii-IsScalar n h)) (λ _. nul)

lower_char : Char → Char
unfolding of_code
lower_char c = if leb 65 (code c) && leb (code c) 90 then of_code (code c + 32) else c

-- `s.lower()`
unfoldable pub lower : String → String
unfolding lower_char
lower String.[] = String.[]
lower (String.◌∷◌ c s) = String.◌∷◌ (lower_char c) (lower s)

-- The code points of a text.
abbrev pub codes : String → List ℕ
codes String.[] = []
codes (String.◌∷◌ c s) = code c ∷ codes s

-- `c.isspace()`, for a code point.
unfoldable pub is_space : ℕ → Bool
is_space c =
    (leb 9 c && leb c 13)
    || (leb 28 c && leb c 32)
    || nat_beq c 0x85
    || nat_beq c 0xA0
    || nat_beq c 0x1680
    || (leb 0x2000 c && leb c 0x200A)
    || nat_beq c 0x2028
    || nat_beq c 0x2029
    || nat_beq c 0x202F
    || nat_beq c 0x205F
    || nat_beq c 0x3000

-- `not s.strip()`
unfoldable pub is_blank : String → Bool
unfolding is_space
is_blank String.[] = true
is_blank (String.◌∷◌ c s) = is_space (code c) && is_blank s

lower_test : lower "WhateverGreen-2" ≡ "whatevergreen-2"
unfolding lower
lower_test = refl

-- `str(n)` for a natural number: its digits, with the number itself as the bound on their count.
digits : ℕ → ℕ → String → String
unfolding of_code
digits zero n acc = acc
digits (suc fuel) n acc =
    let shown : String = String.◌∷◌ (of_code (48 + n % 10)) acc in
    let rest : String = digits fuel (n / 10) shown in if nat_beq (n / 10) 0 then shown else rest

unfoldable pub decimal : ℕ → String
unfolding digits
decimal n = digits (suc n) n String.[]

decimal_test : decimal 16777216 ≡ "16777216"
unfolding decimal
decimal_test = refl

-- `s.upper()`
upper_char : Char → Char
unfolding of_code
upper_char c = if leb 97 (code c) && leb (code c) 122 then of_code (code c - 32) else c

unfoldable pub upper : String → String
unfolding upper_char
upper String.[] = String.[]
upper (String.◌∷◌ c s) = String.◌∷◌ (upper_char c) (upper s)

-- `s.strip()`
strip_left : String → String
unfolding is_space
strip_left String.[] = String.[]
strip_left (String.◌∷◌ c s) =
    let rest = strip_left s in if is_space (code c) then rest else String.◌∷◌ c s

unfoldable pub strip : String → String
unfolding strip_left
strip s = strip_right (strip_left s)
  where
    joined : Char → String → String
    joined c String.[] = if is_space (code c) then String.[] else String.◌∷◌ c String.[]
    joined c (String.◌∷◌ d rest) = String.◌∷◌ c (String.◌∷◌ d rest)

    strip_right : String → String
    strip_right String.[] = String.[]
    strip_right (String.◌∷◌ c rest) = joined c (strip_right rest)

strip_test : strip " Sequoia\t" ≡ "Sequoia"
unfolding strip
strip_test = refl

-- `t in s`
unfoldable pub mentions : String → String → Bool
mentions s t = elim (find? s t) [ none ↦ false | some _ ↦ true ]

-- The text of a list of code points, of the ASCII range.
unfoldable pub of_codes : List ℕ → String
unfolding of_code
of_codes [] = String.[]
of_codes (c ∷ s) = String.◌∷◌ (of_code c) (of_codes s)
