-- ===== src/K8s/SanitizeName.antt =====
-- `SanitizeName` of service/internal/k8s/bind.go: the name of the custom resource and of the
-- ServiceAccount, from an email.
pub mod Dns
pub mod Kept
use kube_argus.Base.{ℕ, ◌+◌, String, Bool, true, false, ◌&&◌, ◌||◌, List, [], ◌∷◌, map}
use kube_argus.Base.{leb, ltb, nat_eq, if◌then◌else◌, length, take, is_empty, runes, text_of}

-- `strings.ToLower`, rune by rune. The Kelvin sign and the dotted capital I are the two runes
-- outside ASCII that lower into it; all others go to runes outside ASCII, which the loop
-- below writes as a dash like the capital itself.
unfoldable pub to_lower : ℕ → ℕ
to_lower r =
    if leb b'A' r && leb r b'Z'
    then r + 32
    else if nat_eq r 0x212a
    then b'k'
    else if nat_eq r 0x130
    then b'i'
    else r

abbrev pub is_alnum : ℕ → Bool
is_alnum r = leb b'a' r && leb r b'z' || leb b'0' r && leb r b'9'

abbrev pub dash : ℕ
dash = b'-'

-- The body of the loop.
unfoldable pub write_rune : ℕ → ℕ
write_rune r = if is_alnum r then r else dash

-- `strings.Trim(s, "-")`
unfoldable pub trim_left : List ℕ → List ℕ
trim_left [] = []
trim_left (r ∷ rs) = let rest = trim_left rs in if nat_eq r dash then rest else r ∷ rs

unfoldable pub trim_right : List ℕ → List ℕ
trim_right [] = []
trim_right (r ∷ rs) =
    let rest = trim_right rs in if nat_eq r dash && is_empty rest then [] else r ∷ rest

unfoldable pub trim : List ℕ → List ℕ
unfolding trim_left trim_right
trim rs = trim_right (trim_left rs)

-- The two last steps of the function: the cut at 253 bytes (the text is ASCII there) and the
-- fallback.
unfoldable pub fit : List ℕ → List ℕ
unfolding trim
fit out = if ltb 253 (length out) then trim (take 253 out) else out

unfoldable pub or_user : List ℕ → List ℕ
or_user out = if is_empty out then runes "user" else out

unfoldable pub sanitize : List ℕ → List ℕ
unfolding to_lower write_rune trim fit or_user
sanitize rs = or_user (fit (trim (map write_rune (map to_lower rs))))

unfoldable pub sanitize_name : String → String
unfolding sanitize text_of
sanitize_name email = text_of (sanitize (runes email))
