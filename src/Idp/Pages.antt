-- ===== src/Idp/Pages.antt =====
-- The groups of `fetchGroups` of service/internal/idp/google/google.go, over all pages.
use kube_argus.Base.{String, ◌≡◌, sym, ap, ◌∙◌, none, List, [], ◌∷◌, ◌++◌, map, ok, arith}
use mathlib.Core.List.{map-append, append_assoc, append-nil}
use kube_argus.Model.{Membership}
use kube_argus.Idp.Calls.{Group, Wiring}
use kube_argus.Idp.Google.{add_page, add_pages, GoogleProvider, fetch_groups}

abbrev pub member : String → Group → Membership
member domain g = record { gid = g.id; name = g.name; domain = domain }

abbrev pub concat : List (List Group) → List Group
concat [] = []
concat (page ∷ pages) = page ++ concat pages

add_page-map :
    (domain : String) (gs : List Group) (out : List Membership)
    → add_page domain gs out ≡ out ++ map (member domain) gs
unfolding add_page
add_page-map domain [] out = sym (append-nil out)
add_page-map domain (g ∷ gs) out =
    add_page-map domain gs (out ++ (member domain g ∷ []))
    ∙ append_assoc out (member domain g ∷ []) (map (member domain) gs)

pub add_pages-map :
    (domain : String) (pages : List (List Group)) (out : List Membership)
    → add_pages domain pages out ≡ out ++ map (member domain) (concat pages)
unfolding add_pages
add_pages-map domain [] out = sym (append-nil out)
add_pages-map domain (page ∷ pages) out =
    add_pages-map domain pages (add_page domain page out)
    ∙ ap (λ t. t ++ map (member domain) (concat pages)) (add_page-map domain page out)
    ∙ append_assoc out (map (member domain) page) (map (member domain) (concat pages))
    ∙ ap (λ t. out ++ t) (sym (map-append (member domain) page (concat pages)))

module _ (W : Wiring) where
  -- If no page fails, the groups of a Google login are those of every page of the directory, in order
  -- and each once for each place it is listed, with the hosted domain of the login.
  pub fetch_groups-concat :
      (p : GoogleProvider W) (email domain : String) (w : W.World)
      → (W.pages p.dir email 200 w).1 ≡ none
      → (fetch_groups W p email domain w).0
        ≡ ok (map (member domain) (concat (W.pages p.dir email 200 w).0))
  unfolding fetch_groups
  fetch_groups-concat p email domain w h =
      ground (arith, add_pages-map domain (W.pages p.dir email 200 w).0 [])
