-- ===== src/Idp/Oidc/Groups.antt =====
-- `ParseGroups` of service/internal/idp/oidc/oidc.go.
use kube_argus.Base.{
  Among, String, ◌≡◌, sym, ap, ◌∙◌, true, false, some, List, ◌∷◌, ◌⊎◌, inl, inr, ◌↔◌, arith, is_nil,
  Bool-cases, Bool, if◌then◌else◌,
}
use kube_argus.Model.{Membership}
use kube_argus.Idp.Calls.{Any, text, flag, array, other, Anys, end, item}
use kube_argus.Idp.Oidc.{groups_in, parse_groups}

-- A place in the array where the value stands.
abbrev pub Holds : Any → Anys → Type 0
Holds v end = ⊥
Holds v (item x xs) = (x ≡ v) ⊎ Holds v xs

-- The membership of a group that the array names.
pub record NamedBy (vs : Anys) (domain : String) (m : Membership) : Type 0 where
  pub given : is_nil m.gid ≡ false
  pub listed : Holds (text m.gid) vs
  pub name : m.name ≡ m.gid
  pub domain_same : m.domain ≡ domain

abbrev member : String → String → Membership
member domain g = record { gid = g; name = g; domain = domain }

later :
    (v : Any) (vs : Anys) (domain : String) (m : Membership)
    → NamedBy vs domain m
    → NamedBy (item v vs) domain m
later v vs domain m n = record {
  given = n.given;
  listed = inr n.listed;
  name = n.name;
  domain_same = n.domain_same;
}

named :
    (g : String) (vs : Anys) (domain : String) (m : Membership)
    → is_nil g ≡ false
    → member domain g ≡ m
    → NamedBy (item (text g) vs) domain m
named g vs domain m b e = record {
  given = ap (λ (x : Membership). is_nil x.gid) (sym e) ∙ b;
  listed = inl (ap (λ (x : Membership). text x.gid) e);
  name = ap (λ (x : Membership). x.name) (sym e) ∙ ap (λ (x : Membership). x.gid) e;
  domain_same = ap (λ (x : Membership). x.domain) (sym e);
}

groups_in-NamedBy :
    (vs : Anys) (domain : String) (m : Membership)
    → Among m (groups_in vs domain)
    → NamedBy vs domain m
unfolding groups_in
groups_in-NamedBy end domain m h = absurd h
groups_in-NamedBy (item (text g) vs) domain m h = elim (Bool-cases (is_nil g)) [
  | inl b ↦ later (text g) vs domain m (groups_in-NamedBy vs domain m (rw (b, if◌then◌else◌) at h))
  | inr b ↦ elim (rw (b, if◌then◌else◌) at h) [
    | inl e ↦ named g vs domain m b e
    | inr n ↦ later (text g) vs domain m (groups_in-NamedBy vs domain m n)
  ]
]
groups_in-NamedBy (item (flag x) vs) domain m h =
    later (flag x) vs domain m (groups_in-NamedBy vs domain m h)
groups_in-NamedBy (item (array x) vs) domain m h =
    later (array x) vs domain m (groups_in-NamedBy vs domain m h)
groups_in-NamedBy (item other vs) domain m h =
    later other vs domain m (groups_in-NamedBy vs domain m h)

same_text : (g k : String) → text g ≡ text k → g ≡ k
same_text g k h = ground arith

Among-if :
    (m x : Membership) (b : Bool) (rest : List Membership)
    → Among m rest
    → Among m (if b then rest else x ∷ rest)
Among-if m x true rest h = h
Among-if m x false rest h = inr h

Among-head :
    (m x : Membership) (b : Bool) (rest : List Membership)
    → b ≡ false
    → x ≡ m
    → Among m (if b then rest else x ∷ rest)
Among-head m x true rest h e = ground arith
Among-head m x false rest h e = inl e

listed-Among :
    (vs : Anys) (domain : String) (m : Membership)
    → is_nil m.gid ≡ false
    → member domain m.gid ≡ m
    → Holds (text m.gid) vs
    → Among m (groups_in vs domain)
unfolding groups_in
listed-Among end domain m b s h = absurd h
listed-Among (item (text g) vs) domain m b s (inl e) =
    Among-head m (member domain g) (is_nil g) _ (ap is_nil (same_text g m.gid e) ∙ b)
      (ap (member domain) (same_text g m.gid e) ∙ s)
listed-Among (item (text g) vs) domain m b s (inr n) =
    Among-if m (member domain g) (is_nil g) _ (listed-Among vs domain m b s n)
listed-Among (item (flag x) vs) domain m b s (inr n) = listed-Among vs domain m b s n
listed-Among (item (array x) vs) domain m b s (inr n) = listed-Among vs domain m b s n
listed-Among (item other vs) domain m b s (inr n) = listed-Among vs domain m b s n
listed-Among (item (flag x) vs) domain m b s (inl e) = ground arith
listed-Among (item (array x) vs) domain m b s (inl e) = ground arith
listed-Among (item other vs) domain m b s (inl e) = ground arith

-- The memberships of a login are exactly those of the texts in the array of the groups claim that
-- are not empty: the text is the id and the name of the group, and its domain is that of the email.
pub parse_groups_iff :
    (vs : Anys) (domain : String) (m : Membership)
    → Among m (parse_groups (some (array vs)) domain) ↔ NamedBy vs domain m
unfolding parse_groups
parse_groups_iff vs domain m = (
  groups_in-NamedBy vs domain m,
  λ n. listed-Among vs domain m n.given (ground (arith, n.name, n.domain_same)) n.listed,
)
