-- ===== src/Orchestrate/Deployment/Persist.antt =====
-- Persisting links: what a success promises of both views.
use nix_compose.Prelude.{
  String, List, [], ◌∷◌, ◌++◌, ◌≡◌, refl, ◌∙◌, Bool, true, false, ◌==◌, ◌&&◌, ◌||◌, inl, inr,
  Bool-cases, arith,
}
use nix_compose.Orchestrate.Types.{Link, Deployment}
use nix_compose.Orchestrate.Links.{Bolt, Links, add_link}
use nix_compose.Orchestrate.Links.Holds.{depends, depended}
use nix_compose.Orchestrate.Links.Mirror.{add_link_lem}
use nix_compose.Orchestrate.Deployment.{add_links, persist_links}

-- Some link of the list goes from `s` to `t`.
abbrev pub links_pair : List Link → String → String → Bool
links_pair [] s t = false
links_pair (l ∷ rest) s t = ((l.source.id == s) && (l.target.id == t)) || links_pair rest s t

pub links_pair-append :
    (xs ys : List Link) (s t : String)
    → links_pair (xs ++ ys) s t ≡ (links_pair xs s t || links_pair ys s t)
links_pair-append [] ys s t = refl
links_pair-append (x ∷ xs) ys s t = ground (arith, links_pair-append xs ys s t)

module _ (bolt : Bolt) where
  -- The links of `db`, and those of the list, in both views.
  abbrev pub Adds : List Link → Links bolt → Links bolt → Type 0
  Adds ls db db' =
      (s t : String)
      → (depends bolt db' s t ≡ (depends bolt db s t || links_pair ls s t))
        × (depended bolt db' s t ≡ (depended bolt db s t || links_pair ls s t))

  add_links-Adds :
      (ls : List Link) (db : Links bolt)
      → (add_links bolt ls db).1 ≡ true
      → Adds ls db (add_links bolt ls db).0
  unfolding add_links
  add_links-Adds [] db h s t = (ground arith, ground arith)
  add_links-Adds (l ∷ rest) db h s t = elim (Bool-cases (add_link bolt l db).1) [
    | inr f ↦ let no = rw f at h in cc
    | inl ok ↦
        let (a, b) =
          add_link_lem bolt l db (add_link bolt l db).0 (add_link bolt l db).1 s t refl in
        let (c, d) = add_links-Adds rest (add_link bolt l db).0 (rw ok at h) s t in
        rw ok (c ∙ ground (arith, a, ok), d ∙ ground (arith, b, ok))
  ]

  -- Where `PersistLinks` succeeds, both views hold what they held and every link of the deployment,
  -- dependencies and depending ones, and no other.
  pub persist_links-Adds :
      (d : Deployment) (db : Links bolt)
      → (persist_links bolt d db).1 ≡ true
      → Adds (d.dependencies ++ d.depending) db (persist_links bolt d db).0
  unfolding persist_links
  persist_links-Adds d db h s t = elim (Bool-cases (add_links bolt d.dependencies db).1) [
    | inr f ↦ let no = rw f at h in cc
    | inl ok ↦
        let (a, b) = add_links-Adds d.dependencies db ok s t in
        let (c, e) =
          add_links-Adds d.depending (add_links bolt d.dependencies db).0 (rw ok at h) s t in
        rw ok (
          c ∙ ground (arith, a, links_pair-append d.dependencies d.depending s t),
          e ∙ ground (arith, b, links_pair-append d.dependencies d.depending s t),
        )
  ]
