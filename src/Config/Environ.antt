-- ===== src/Config/Environ.antt =====
-- `env`, `envInt` and `envBool` of service/internal/config/config.go, over a map of variables, with
-- `strconv.Atoi` and `strconv.ParseBool`. `int` has 64 bits.
pub mod Decimal
use kube_argus.Base.{
  ℕ, zero, suc, ◌+◌, ◌-◌, ◌*◌, ◌^◌, String, ◌==◌, Bool, true, false, ◌&&◌, ◌||◌, Option, none, some,
  List, [], ◌∷◌, runes, nat_eq, leb, ltb, if◌then◌else◌, ℤ, pos, negsuc,
}
use kube_argus.Base.Dict.{Dict, lookup}

-- `os.Getenv`: a variable that is not set reads as the empty text.
unfoldable pub getenv : Dict String → String → String
getenv vars key = elim (lookup key vars) [ none ↦ "" | some v ↦ v ]

unfoldable pub env : Dict String → String → String → String
env vars key def = let v = getenv vars key in if v == "" then def else v

-- The number that digits spell behind `n`.
unfoldable pub digits : List ℕ → ℕ → Option ℕ
digits [] n = some n
digits (r ∷ rs) n =
    let rest = digits rs (n * 10 + (r - b'0')) in if leb b'0' r && leb r b'9' then rest else none

abbrev pub positive : Option ℕ → Option ℤ
positive none = none
positive (some n) = if ltb n (2 ^ 63) then some (pos n) else none

abbrev pub negative : Option ℕ → Option ℤ
negative none = none
negative (some zero) = some (pos zero)
negative (some (suc n)) = if ltb n (2 ^ 63) then some (negsuc n) else none

-- One digit or more.
unfoldable pub magnitude : List ℕ → Option ℕ
magnitude [] = none
magnitude (r ∷ rs) = digits (r ∷ rs) 0

-- `strconv.Atoi`: none for its two errors, a text that is no number and one that does not fit.
unfoldable pub atoi : List ℕ → Option ℤ
atoi [] = none
atoi (r ∷ rs) =
    if nat_eq r b'-'
    then negative (magnitude rs)
    else if nat_eq r b'+'
    then positive (magnitude rs)
    else positive (magnitude (r ∷ rs))

unfoldable pub env_int : Dict String → String → ℤ → ℤ
env_int vars key def =
    let v = getenv vars key in
    let parsed = atoi (runes v) in if v == "" then def else elim parsed [ none ↦ def | some n ↦ n ]

-- `strconv.ParseBool`
unfoldable pub parse_bool : String → Option Bool
parse_bool s =
    if s == "1" || s == "t" || s == "T" || s == "true" || s == "TRUE" || s == "True"
    then some true
    else if s == "0" || s == "f" || s == "F" || s == "false" || s == "FALSE" || s == "False"
    then some false
    else none

unfoldable pub env_bool : Dict String → String → Bool → Bool
env_bool vars key def =
    let v = getenv vars key in
    let parsed = parse_bool v in if v == "" then def else elim parsed [ none ↦ def | some b ↦ b ]
