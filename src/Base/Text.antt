-- ===== src/Base/Text.antt =====
-- Go strings are native texts. Where the code walks one, it walks the code points (Go's runes).
use Prim.Native.Nat.{ℕ, zero, suc, ◌+◌, ◌/◌, ◌%◌, ◌<◌, compare, Ordering}
use Prim.Native.Char.{Char, char, code, IsScalar}
use Prim.Native.String.{String}
use Prim.Native.String.append
use Prim.Native.String.{◌++◌ as ◌<>◌}
use mathlib.Core.Path.{◌≡◌, refl, ap, ap₂, ◌∙◌}
use mathlib.Core.Logic.{dite, dif_pos}
use mathlib.Core.Bool.{Bool, true, false, ◌&&◌, ◌||◌}
use mathlib.Core.List.{List, [], ◌∷◌, ◌++◌}
use kube_argus.Base.Tests.{ltb, leb, nat_eq, if◌then◌else◌}
use native.Mathlib.Omega.{arith}
use text.Mathlib.TextEquality.{Char-path}
use native.Mathlib.Bridge.{le_prop}
use native.Mathlib.Decide.{dec_lt}

-- `for _, r := range s`
abbrev pub runes : String → List ℕ
runes String.[] = []
runes (String.◌∷◌ c s) = code c ∷ runes s

abbrev pub is_nil : String → Bool
is_nil String.[] = true
is_nil (String.◌∷◌ c s) = false

-- `unicode.IsSpace`
unfoldable pub is_space : ℕ → Bool
is_space r =
    nat_eq r 0x20
    || (leb 0x9 r && leb r 0xd)
    || nat_eq r 0x85
    || nat_eq r 0xa0
    || nat_eq r 0x1680
    || (leb 0x2000 r && leb r 0x200a)
    || nat_eq r 0x2028
    || nat_eq r 0x2029
    || nat_eq r 0x202f
    || nat_eq r 0x205f
    || nat_eq r 0x3000

pub compare_of_lt : (n : ℕ) → n < 128 → compare n 55296 ≡ Ordering.lt
compare_of_lt n h = ground arith

pub ascii-IsScalar : (n : ℕ) → n < 128 → IsScalar n
ascii-IsScalar n h = rw (compare_of_lt n h) tt

-- The character of an ASCII code; a text is only ever built from those.
unfoldable pub ascii : ℕ → Char
unfolding dec_lt
ascii n = dite (dec_lt n 128) (λ h. char n (ascii-IsScalar n h)) (λ _. char 0 tt)

pub code-ascii : (n : ℕ) → n < 128 → code (ascii n) ≡ n
unfolding ascii
code-ascii n h = ap code (dif_pos (dec_lt n 128) le_prop h _ _)

-- The text of ASCII codes.
unfoldable pub text_of : List ℕ → String
unfolding ascii
text_of [] = String.[]
text_of (n ∷ ns) = String.◌∷◌ (ascii n) (text_of ns)

-- Every code is ASCII.
abbrev pub AllAscii : List ℕ → Type 0
AllAscii [] = Unit
AllAscii (n ∷ ns) = (n < 128) × AllAscii ns

pub runes-text_of : (ns : List ℕ) → AllAscii ns → runes (text_of ns) ≡ ns
unfolding text_of
runes-text_of [] h = refl
runes-text_of (n ∷ ns) (h, hs) = ap₂ ◌∷◌ (code-ascii n h) (runes-text_of ns hs)

pub text_of-runes : (s : String) → AllAscii (runes s) → text_of (runes s) ≡ s
unfolding text_of
text_of-runes String.[] h = refl
text_of-runes (String.◌∷◌ c s) (h, hs) =
    ap₂ String.◌∷◌ (Char-path (ascii (code c)) c (code-ascii (code c) h)) (text_of-runes s hs)

pub runes-append : (s t : String) → runes (s <> t) ≡ runes s ++ runes t
runes-append String.[] t = ap runes (append.nil t)
runes-append (String.◌∷◌ c s) t =
    ap runes (append.cons c s t) ∙ ap (λ r. code c ∷ r) (runes-append s t)

-- The decimal digits of a number, as `%d` prints them; a number has no more digits than its value
-- plus one, which is the fuel.
unfoldable pub digits_from : ℕ → ℕ → List ℕ
digits_from zero n = []
digits_from (suc f) n =
    let rest = digits_from f (n / 10) in
    if ltb n 10 then (n + b'0') ∷ [] else rest ++ ((n % 10 + b'0') ∷ [])

unfoldable pub decimal : ℕ → String
unfolding digits_from text_of
decimal n = text_of (digits_from (suc n) n)

decimal_example : decimal 1207 ≡ "1207"
unfolding decimal
decimal_example = refl

round_trip_example : text_of (runes "go-1") ≡ "go-1"
unfolding text_of
round_trip_example = refl
