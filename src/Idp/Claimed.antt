-- ===== src/Idp/Claimed.antt =====
-- The identity that the claims of an id_token give: `Authenticate` of service/internal/idp/oidc/oidc.go
-- and of service/internal/idp/google/google.go, from the decoded claims on.
use kube_argus.Base.{
  String, Bool, false, ◌==◌, ◌≡◌, ◌≢◌, refl, ◌⊎◌, ◌↔◌, inl, inr, Option, none, some, List, [],
  arith, map,
}
use kube_argus.Base.Dict.{Dict, lookup}
use kube_argus.Model.{Identity}
use kube_argus.Idp.Calls.{Any, text, flag, array, other, Group, GoogleClaims, Wiring}
use kube_argus.Idp.Oidc
use kube_argus.Idp.Oidc.Email.{EndsWith, domain_of_iff}
use kube_argus.Idp.Google
use kube_argus.Idp.Pages.{member, concat, add_pages-map}

-- The claim is this text; or it is no text, and the text is empty.
abbrev pub TextAt : String → Dict Any → String → Type 0
TextAt k cs t =
    (lookup k cs ≡ some (text t)) ⊎ ((t ≡ "") × ((u : String) → lookup k cs ≢ some (text u)))

-- The claim is this boolean; or it is none, and the boolean is false.
abbrev pub FlagAt : String → Dict Any → Bool → Type 0
FlagAt k cs b =
    (lookup k cs ≡ some (flag b)) ⊎ ((b ≡ false) × ((c : Bool) → lookup k cs ≢ some (flag c)))

as_string-TextAt :
    (o : Option Any)
    → (o ≡ some (text (Oidc.as_string o)))
      ⊎ ((Oidc.as_string o ≡ "") × ((u : String) → o ≢ some (text u)))
unfolding Oidc.as_string
as_string-TextAt none = inr (refl, λ u e. ground arith)
as_string-TextAt (some (text t)) = inl refl
as_string-TextAt (some (flag b)) = inr (refl, λ u e. ground arith)
as_string-TextAt (some (array vs)) = inr (refl, λ u e. ground arith)
as_string-TextAt (some other) = inr (refl, λ u e. ground arith)

as_bool-FlagAt :
    (o : Option Any)
    → (o ≡ some (flag (Oidc.as_bool o)))
      ⊎ ((Oidc.as_bool o ≡ false) × ((c : Bool) → o ≢ some (flag c)))
unfolding Oidc.as_bool
as_bool-FlagAt none = inr (refl, λ c e. ground arith)
as_bool-FlagAt (some (text t)) = inr (refl, λ c e. ground arith)
as_bool-FlagAt (some (flag b)) = inl refl
as_bool-FlagAt (some (array vs)) = inr (refl, λ c e. ground arith)
as_bool-FlagAt (some other) = inr (refl, λ c e. ground arith)

module _ (W : Wiring) where
  -- The claims of the generic provider.
  pub record ClaimedOidc (p : Oidc.OidcProvider W) (token : W.IdToken) (cs : Dict Any)
      (id : Identity) : Type 0 where
    pub subject : id.subject ≡ W.subject token
    pub email : TextAt "email" cs id.email
    pub email_verified : FlagAt "email_verified" cs id.email_verified
    pub name : TextAt "name" cs id.name
    pub domain : (d : String) → (d == "") ≡ false → (id.domain ≡ d) ↔ EndsWith id.email d
    pub groups : id.groups ≡ Oidc.parse_groups (lookup p.groups_claim cs) id.domain

  pub identity_of-ClaimedOidc :
      (p : Oidc.OidcProvider W) (token : W.IdToken) (cs : Dict Any)
      → ClaimedOidc p token cs (Oidc.identity_of W p token cs)
  unfolding Oidc.identity_of
  identity_of-ClaimedOidc p token cs = record {
    subject = refl;
    email = as_string-TextAt (lookup "email" cs);
    email_verified = as_bool-FlagAt (lookup "email_verified" cs);
    name = as_string-TextAt (lookup "name" cs);
    domain = λ d. domain_of_iff (Oidc.as_string (lookup "email" cs)) d;
    groups = refl;
  }

  -- The claims of the Google provider, with the pages of the directory.
  pub record ClaimedGoogle (c : GoogleClaims) (pages : List (List Group)) (id : Identity)
      : Type 0 where
    pub subject : id.subject ≡ c.subject
    pub email : id.email ≡ c.email
    pub email_verified : id.email_verified ≡ c.email_verified
    pub name : id.name ≡ c.name
    pub domain : id.domain ≡ c.hosted_domain
    pub groups : id.groups ≡ map (member c.hosted_domain) (concat pages)

  pub identity_of-ClaimedGoogle :
      (c : GoogleClaims) (pages : List (List Group))
      → ClaimedGoogle c pages (Google.identity_of W c (Google.add_pages c.hosted_domain pages []))
  identity_of-ClaimedGoogle c pages = record {
    subject = refl;
    email = refl;
    email_verified = refl;
    name = refl;
    domain = refl;
    groups = add_pages-map c.hosted_domain pages [];
  }
