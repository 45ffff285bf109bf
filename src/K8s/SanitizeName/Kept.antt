-- ===== src/K8s/SanitizeName/Kept.antt =====
-- Which names `SanitizeName` keeps, and which emails it cannot tell apart.
use kube_argus.Base.{ℕ, ◌≤◌, ◌≡◌, refl, String, false}
use kube_argus.Base.{List, [], ◌∷◌, map, arith, length, All, runes, is_empty, ltb}
use kube_argus.Base.{text_of-runes}
use kube_argus.K8s.SanitizeName.{
  to_lower, write_rune, trim_left, trim_right, trim, fit, or_user, sanitize, sanitize_name,
}
use kube_argus.K8s.SanitizeName.Dns.{
  IsNameRune, IsDnsName, first_is_dash, last_is_dash, AllAscii-names, sanitize_name-IsDnsName,
}

slot_of_name_rune : (r : ℕ) → IsNameRune r → write_rune (to_lower r) ≡ r
unfolding write_rune to_lower
slot_of_name_rune r h = ground arith

slots_of_names : (rs : List ℕ) → All IsNameRune rs → map write_rune (map to_lower rs) ≡ rs
slots_of_names [] h = refl
slots_of_names (r ∷ rs) (h, hs) = cc (slot_of_name_rune r h, slots_of_names rs hs)

trim_left_kept : (rs : List ℕ) → first_is_dash rs ≡ false → trim_left rs ≡ rs
unfolding trim_left
trim_left_kept [] h = refl
trim_left_kept (r ∷ rs) h = rw h

trim_right-cons :
    (r q : ℕ) (rs qs : List ℕ) → trim_right rs ≡ q ∷ qs → trim_right (r ∷ rs) ≡ r ∷ q ∷ qs
unfolding trim_right
trim_right-cons r q rs qs e = rw e (ground arith)

trim_right_kept : (rs : List ℕ) → last_is_dash rs ≡ false → trim_right rs ≡ rs
unfolding trim_right
trim_right_kept [] h = refl
trim_right_kept (r ∷ []) h = rw h
trim_right_kept (r ∷ q ∷ rs) h = trim_right-cons r q (q ∷ rs) rs (trim_right_kept (q ∷ rs) h)

trim_kept : (rs : List ℕ) → first_is_dash rs ≡ false → last_is_dash rs ≡ false → trim rs ≡ rs
unfolding trim
trim_kept rs b e = rw (trim_left_kept rs b) (trim_right_kept rs e)

not-ltb_of_le : (a b : ℕ) → b ≤ a → ltb a b ≡ false
not-ltb_of_le a b h = ground arith

fit_kept : (rs : List ℕ) → length rs ≤ 253 → fit rs ≡ rs
unfolding fit
fit_kept rs h = rw (not-ltb_of_le 253 (length rs) h)

or_user_kept : (rs : List ℕ) → is_empty rs ≡ false → or_user rs ≡ rs
unfolding or_user
or_user_kept rs h = rw h

sanitize_kept : (rs : List ℕ) → IsDnsName rs → sanitize rs ≡ rs
unfolding sanitize
sanitize_kept rs d =
    rw (slots_of_names rs d.allowed, trim_kept rs d.begins d.ends, fit_kept rs d.short)
      (or_user_kept rs d.nonempty)

-- A text that is a valid name already is kept as it is.
pub sanitize_name_kept : (s : String) → IsDnsName (runes s) → sanitize_name s ≡ s
unfolding sanitize_name
sanitize_name_kept s d =
    rw (sanitize_kept (runes s) d) (text_of-runes s (AllAscii-names (runes s) d.allowed))

-- So a name is a fixed point: sanitizing twice is sanitizing once.
pub sanitize_name_idem :
    (email : String) → sanitize_name (sanitize_name email) ≡ sanitize_name email
sanitize_name_idem email = sanitize_name_kept (sanitize_name email) (sanitize_name-IsDnsName email)
