-- ===== src/Orchestrate/Apply/Load.antt =====
-- The links that are loaded for the order of the requests.
use nix_compose.Prelude.{
  String, List, [], ◌∷◌, ◌≡◌, refl, ◌∙◌, ◌==◌, ◌&&◌, inl, inr, ==-cases, arith, contains,
}
use nix_compose.Orchestrate.Types.{Reference}
use nix_compose.Orchestrate.Links.{Bolt, Links, get_dependencies}
use nix_compose.Orchestrate.Links.Lists.{ids}
use nix_compose.Orchestrate.Links.Holds.{depends}
use nix_compose.Orchestrate.Deployment.{links_to}
use nix_compose.Orchestrate.Deployment.Persist.{links_pair, links_pair-append}
use nix_compose.Orchestrate.Apply.{load_links}

links_pair-links_to :
    (ref : Reference) (refs : List Reference) (s t : String)
    → links_pair (links_to ref refs) s t ≡ ((ref.id == s) && contains (ids refs) t)
unfolding links_to
links_pair-links_to ref [] s t = ground arith
links_pair-links_to ref (r ∷ rest) s t = ground (arith, links_pair-links_to ref rest s t)

-- `loadLinks` returns exactly the links of the view by source whose source is one of the keys.
pub links_pair-load_links :
    (bolt : Bolt) (keys : List String) (db : Links bolt) (s t : String)
    → links_pair (load_links bolt keys db) s t ≡ (contains keys s && depends bolt db s t)
unfolding load_links get_dependencies
links_pair-load_links bolt [] db s t = refl
links_pair-load_links bolt (key ∷ rest) db s t =
    let ref : Reference = record { id = key; key = "" } in
    links_pair-append (links_to ref (get_dependencies bolt ref db)) (load_links bolt rest db) s t
    ∙ elim (==-cases key s) [
      | inl (e, same) ↦
          rw (links_pair-links_to ref (get_dependencies bolt ref db) s t)
            (rw (links_pair-load_links bolt rest db s t) (rw same (ground arith)))
      | inr (f, ne) ↦
          rw (links_pair-links_to ref (get_dependencies bolt ref db) s t)
            (rw (links_pair-load_links bolt rest db s t) (rw f refl))
    ]
