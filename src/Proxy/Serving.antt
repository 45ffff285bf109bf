-- ===== src/Proxy/Serving.antt =====
-- The cache of service/internal/proxy/proxy.go over whole requests: a request changes it by one call
-- of `token` at most.
use mathlib.Core.Path.{subst}
use kube_argus.Base.{
  ◌≡◌, refl, ap, ◌∙◌, sym, ◌⊎◌, inl, inr, String, ◌==◌, ◌&&◌, not, if◌then◌else◌, Outcome-cases,
  Bool-cases,
}
use kube_argus.K8s.SanitizeName.{sanitize_name}
use kube_argus.Proxy.{Wiring, Proxy, Request, bearer, user_of, token, swap, authenticate, serve}
use kube_argus.Proxy.Start.{ProxySettings, new_proxy}
use kube_argus.Proxy.Fresh.{Reaches, started, asked}
use kube_argus.Proxy.Isolation.{
  after_verify, served, swap-unnamed, swap-ok, swap-err, authenticate-unverified, authenticate-ok,
  authenticate-err,
}

module _ (W : Wiring) where
  Asks : Proxy → Proxy → Type 0
  Asks p q = (q ≡ p) ⊎ ((sa : String) × (w : W.World) × (q ≡ (token W sa (p, w)).1.0))

  swap-Asks :
      (r : Request) (id : W.IdToken) (p : Proxy) (w : W.World) → Asks p (swap W r id (p, w)).1.0
  unfolding Asks
  swap-Asks r id p w = elim (Bool-cases (user_of W p id == "")) [
    | inl q ↦ inl (ap (λ x. x.1.0) (swap-unnamed W r id p w q))
    | inr q ↦
        let sa = sanitize_name (user_of W p id) in
        elim (Outcome-cases (served W id p w).0) [
          | inl (t, o) ↦ inr (sa, w, ap (λ x. x.1.0) (swap-ok W r id p w t q o))
          | inr (e, o) ↦ inr (sa, w, ap (λ x. x.1.0) (swap-err W r id p w e q o))
        ]
  ]

  authenticate-Asks :
      (r : Request) (p : Proxy) (w : W.World) → Asks p (authenticate W (bearer r) r (p, w)).1.0
  unfolding Asks
  authenticate-Asks r p w = elim (Outcome-cases (W.verify (bearer r) w).0) [
    | inr (e, v) ↦ inl (ap (λ x. x.1.0) (authenticate-unverified W (bearer r) r p w e v))
    | inl (id, v) ↦
        let st = (swap W r id (p, after_verify W r w)).1 in
        let asks = swap-Asks r id p (after_verify W r w) in
        elim (Outcome-cases (swap W r id (p, after_verify W r w)).0) [
          | inl (x, o) ↦
              subst (Asks p)
                (sym (
                  ap (λ y. y.1.0)
                    (authenticate-ok W (bearer r) r x p w id st v (ap (λ y. (y, st)) o))))
                asks
          | inr (f, o) ↦
              subst (Asks p)
                (sym (
                  ap (λ y. y.1.0)
                    (authenticate-err W (bearer r) r p w id f st v (ap (λ y. (y, st)) o))))
                asks
        ]
  ]

  serve-Asks : (r : Request) (p : Proxy) (w : W.World) → Asks p (serve W r (p, w)).1.0
  unfolding serve
  serve-Asks r p w = elim (Bool-cases (r.path == "/healthz" && bearer r == "")) [
    | inl h ↦ rw (h, if◌then◌else◌) (unfold Asks in inl refl)
    | inr h ↦ elim (Bool-cases (bearer r == "")) [
      | inl b ↦ rw (h, if◌then◌else◌, b, not, if◌then◌else◌) (unfold Asks in inl refl)
      | inr b ↦ rw (h, if◌then◌else◌, b, not, if◌then◌else◌) (authenticate-Asks r p w)
    ]
  ]

  -- The proxies that a start leads to, one whole request after the other.
  pub data Serving (s : ProxySettings) : Proxy → Type 0 where
    opened : {p : Proxy} → p ≡ new_proxy s → Serving s p
    answered :
        {p q : Proxy}
        → Serving s p
        → (r : Request) (w : W.World) → q ≡ (serve W r (p, w)).1.0
        → Serving s q

  pub Serving-Reaches : (s : ProxySettings) (p : Proxy) → Serving s p → Reaches W s p
  unfolding Asks
  Serving-Reaches s p (opened e) = started e
  Serving-Reaches s p (answered {p = q} h r w e) =
      let before = Serving-Reaches s q h in
      elim (serve-Asks r q w) [
        | inl same ↦ subst (Reaches W s) (sym (e ∙ same)) before
        | inr (sa, w', same) ↦ asked before sa w' (e ∙ same)
      ]
