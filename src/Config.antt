-- ===== src/Config.antt =====
-- The part of service/internal/config/config.go that the handlers read: the resolved configuration
-- and its two allow lists. Durations are numbers of nanoseconds.
pub mod Split
pub mod Environ
pub mod Load
use kube_argus.Base.{
  ℕ, String, ◌==◌, Bool, true, false, ◌&&◌, List, [], ◌∷◌, map, some_of, nat_eq, runes,
}

pub record Config : Type 0 where
  pub issuer : String
  pub allowed_domains : List String
  pub client_id : String
  pub client_secret : String
  pub redirect_uris : List String
  pub token_lifetime : ℕ
  pub refresh_token_lifetime : ℕ

abbrev pub runes_eq : List ℕ → List ℕ → Bool
runes_eq [] [] = true
runes_eq [] (q ∷ qs) = false
runes_eq (r ∷ rs) [] = false
runes_eq (r ∷ rs) (q ∷ qs) = nat_eq r q && runes_eq rs qs

-- `strings.EqualFold`. `fold` sends a rune to one chosen rune of its simple case folding orbit, which
-- are the tables of the unicode package.
unfoldable pub equal_fold : (ℕ → ℕ) → String → String → Bool
equal_fold fold s t = runes_eq (map fold (runes s)) (map fold (runes t))

unfoldable pub allowed_domain : (ℕ → ℕ) → Config → String → Bool
unfolding some_of equal_fold
allowed_domain fold c domain = some_of (λ d. equal_fold fold d domain) c.allowed_domains

unfoldable pub redirect_allowed : Config → String → Bool
unfolding some_of
redirect_allowed c uri = some_of (λ r. r == uri) c.redirect_uris
