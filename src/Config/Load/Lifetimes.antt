-- ===== src/Config/Load/Lifetimes.antt =====
-- How long the tokens and the sessions live that `Load` of service/internal/config/config.go resolves.
use kube_argus.Base.{
  ℕ, ◌*◌, ◌≤◌, String, ◌==◌, ◌≡◌, refl, sym, ap, ◌∙◌, true, false, Option, none, some, ok, arith, ℤ,
  pos, seconds, seconds_exact, decimal, runes, if◌then◌else◌,
}
use mathlib.Core.Path.{subst}
use kube_argus.Base.Dict.{Dict}
use kube_argus.Config.Environ.{getenv, env_int, atoi}
use kube_argus.Config.Environ.Decimal.{
  decimal-Given, env_int-unset, env_int-invalid, env_int-decimal,
}
use kube_argus.Config.Load.{Settings, read, session_lifetime, resolve, load}
use kube_argus.Config.Load.Sufficient.{load-resolve}

-- The longest time in whole seconds that a `time.Duration` can hold: 292 years.
abbrev pub max_seconds : ℕ
max_seconds = 9_223_372_036

-- The lives of a configuration that was loaded from the variables.
pub record Lifetimes (duration : String → Option ℤ) (e : Dict String) (s : Settings) : Type 0 where
  pub token_default :
      (getenv e "TOKEN_LIFETIME_SECONDS" == "") ≡ true → s.token_lifetime ≡ pos 900_000_000_000
  pub token_invalid :
      atoi (runes (getenv e "TOKEN_LIFETIME_SECONDS")) ≡ none
      → s.token_lifetime ≡ pos 900_000_000_000
  pub token_set :
      (n : ℕ)
      → n ≤ max_seconds
      → getenv e "TOKEN_LIFETIME_SECONDS" ≡ decimal n
      → s.token_lifetime ≡ pos (n * 1_000_000_000)
  pub session_set :
      (n : ℕ)
      → n ≤ max_seconds
      → getenv e "REFRESH_TOKEN_LIFETIME_SECONDS" ≡ decimal n
      → s.refresh_token_lifetime ≡ pos (n * 1_000_000_000)
  pub session_invalid :
      (getenv e "REFRESH_TOKEN_LIFETIME_SECONDS" == "") ≡ false
      → atoi (runes (getenv e "REFRESH_TOKEN_LIFETIME_SECONDS")) ≡ none
      → s.refresh_token_lifetime ≡ pos 28_800_000_000_000
  pub session_bind :
      (d : ℤ)
      → (getenv e "REFRESH_TOKEN_LIFETIME_SECONDS" == "") ≡ true
      → duration s.bind_ttl ≡ some d
      → s.refresh_token_lifetime ≡ d
  pub session_default :
      (getenv e "REFRESH_TOKEN_LIFETIME_SECONDS" == "") ≡ true
      → duration s.bind_ttl ≡ none
      → s.refresh_token_lifetime ≡ pos 28_800_000_000_000

module _ (duration : String → Option ℤ) (e : Dict String) where
  seconds_set :
      (key : String) (def : ℤ) (n : ℕ)
      → n ≤ max_seconds
      → getenv e key ≡ decimal n
      → seconds (env_int e key def) ≡ pos (n * 1_000_000_000)
  seconds_set key def n l h =
      ap seconds (env_int-decimal e key def n h (omega arith)) ∙ seconds_exact n l

  session-bind :
      (ttl : String) (d : ℤ)
      → (getenv e "REFRESH_TOKEN_LIFETIME_SECONDS" == "") ≡ true
      → duration ttl ≡ some d
      → session_lifetime duration e ttl ≡ d
  unfolding session_lifetime
  session-bind ttl d g h = rw (g, h, if◌then◌else◌) refl

  session-default :
      (ttl : String)
      → (getenv e "REFRESH_TOKEN_LIFETIME_SECONDS" == "") ≡ true
      → duration ttl ≡ none
      → session_lifetime duration e ttl ≡ pos 28_800_000_000_000
  unfolding session_lifetime
  session-default ttl g h = rw (g, h, if◌then◌else◌) refl

  session-set :
      (ttl : String)
      → (getenv e "REFRESH_TOKEN_LIFETIME_SECONDS" == "") ≡ false
      → session_lifetime duration e ttl
        ≡ seconds (env_int e "REFRESH_TOKEN_LIFETIME_SECONDS" (pos 28800))
  unfolding session_lifetime
  session-set ttl g = rw (g, if◌then◌else◌) refl

  resolve-Lifetimes : (quoted : String → String) → Lifetimes duration e (resolve quoted duration e)
  unfolding resolve read
  resolve-Lifetimes quoted = record {
    token_default = λ g.
        ap seconds (env_int-unset e "TOKEN_LIFETIME_SECONDS" (pos 900) g)
        ∙ seconds_exact 900 (omega arith);
    token_invalid = λ h.
        ap seconds (env_int-invalid e "TOKEN_LIFETIME_SECONDS" (pos 900) h)
        ∙ seconds_exact 900 (omega arith);
    token_set = λ n. seconds_set "TOKEN_LIFETIME_SECONDS" (pos 900) n;
    session_set = λ n l h.
        session-set _ (ap (λ v. v == "") h ∙ decimal-Given n)
        ∙ seconds_set "REFRESH_TOKEN_LIFETIME_SECONDS" (pos 28800) n l h;
    session_invalid = λ g h.
        session-set _ g
        ∙ ap seconds (env_int-invalid e "REFRESH_TOKEN_LIFETIME_SECONDS" (pos 28800) h)
        ∙ seconds_exact 28800 (omega arith);
    session_bind = λ d. session-bind _ d;
    session_default = session-default _;
  }

  -- In a configuration that loads, a token lives for the seconds of TOKEN_LIFETIME_SECONDS if that is
  -- a number in decimal, as it is printed, and for 15 minutes if it is not set or is nothing that
  -- strconv.Atoi takes. A session lives for the seconds of REFRESH_TOKEN_LIFETIME_SECONDS if that is such
  -- a number; for 8 hours if it is set to nothing that strconv.Atoi takes; and if it is not set as long
  -- as a bind (BIND_TTL), or for 8 hours if BIND_TTL does not parse. The numbers are those up to
  -- 9223372036, whose nanoseconds do not overflow.
  pub load-Lifetimes :
      (quoted : String → String) (s : Settings)
      → load quoted duration e ≡ ok s
      → Lifetimes duration e s
  load-Lifetimes quoted s h =
      subst (Lifetimes duration e) (sym (load-resolve e quoted duration s h).0)
        (resolve-Lifetimes quoted)
