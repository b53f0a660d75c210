-- ===== src/Backend/Inventory/Refused.antt =====
-- The collection from any Agent (`_fetch_complete_inventory` of
-- services/agent_inventory_sync.py).
use node_conductor.Base.{
  ℕ, zero, suc, ◌+◌, ◌≤◌, ◌<◌, ◌≡◌, refl, sym, ◌∙◌, inl, inr, false, Option, none, some, List, [],
  ◌∷◌, ◌++◌, ◌==◌, arith, if◌then◌else◌, length, All, All-append, Bool-cases, Option-cases,
}
use node_conductor.Agent.Schema.{
  TargetKind, compose_project, standalone_container, Classification, operational, Resource,
}
use node_conductor.Agent.Inventory.{Page}
use node_conductor.Backend.Inventory.{
  SyncSettings, fine, Client, validate_page, Progress, no_progress, take_resource, take_items,
  same_class, same_target_kind, same_identity, seen_identity, identity_invalid, conclude,
  expected_id, fetch_pages, fetch_complete_inventory, exposes_member,
}
use node_conductor.Backend.Inventory.Collected.{Checked-cases, take_items-step, fine_injective}

-- No two resources have the same identity.
abbrev pub Distinct : List Resource → Type 0
Distinct [] = Unit
Distinct (r ∷ rs) = (seen_identity r rs ≡ false) × Distinct rs

same_class-sym : (a b : Classification) → same_class a b ≡ same_class b a
same_class-sym operational operational = refl
same_class-sym operational Classification.ambiguous = refl
same_class-sym Classification.ambiguous operational = refl
same_class-sym Classification.ambiguous Classification.ambiguous = refl

same_target_kind-sym : (a b : Option TargetKind) → same_target_kind a b ≡ same_target_kind b a
same_target_kind-sym none none = refl
same_target_kind-sym none (some k) = refl
same_target_kind-sym (some k) none = refl
same_target_kind-sym (some compose_project) (some compose_project) = refl
same_target_kind-sym (some compose_project) (some standalone_container) = refl
same_target_kind-sym (some standalone_container) (some compose_project) = refl
same_target_kind-sym (some standalone_container) (some standalone_container) = refl

other_identity : (a b : Resource) → same_identity a b ≡ false → same_identity b a ≡ false
other_identity a b h =
    rw
      (
        same_class-sym b.classification a.classification,
        same_target_kind-sym b.target_kind a.target_kind,
      )
      (ground arith)

seen_identity-append :
    (x r : Resource) (ps : List Resource)
    → seen_identity x ps ≡ false
    → same_identity x r ≡ false
    → seen_identity x (ps ++ (r ∷ [])) ≡ false
unfolding seen_identity
seen_identity-append x r [] h e = ground arith
seen_identity-append x r (y ∷ ps) h e = ground (arith, seen_identity-append x r ps)

Distinct-append :
    (r : Resource) (ps : List Resource)
    → Distinct ps
    → seen_identity r ps ≡ false
    → Distinct (ps ++ (r ∷ []))
unfolding seen_identity
Distinct-append r [] d h = (refl, tt)
Distinct-append r (x ∷ ps) d h = (
  seen_identity-append x r ps d.0 (other_identity r x (ground arith)),
  Distinct-append r ps d.1 (ground arith),
)

-- What holds of the resources that were taken.
abbrev pub IsProper : List Resource → Type 0
IsProper rs = Distinct rs × All (λ r. identity_invalid r ≡ false) rs

take_resource-IsProper :
    (r : Resource) (p q : Progress)
    → take_resource r p ≡ fine q
    → IsProper p.resources
    → IsProper q.resources
unfolding take_resource
take_resource-IsProper r p q h (d, v) = elim (Bool-cases (seen_identity r p.resources)) [
  | inl twice ↦ absurd (ground arith)
  | inr new ↦ elim (Bool-cases (identity_invalid r)) [
    | inl bad ↦ absurd (ground arith)
    | inr good ↦ rw (grown) (
      Distinct-append r p.resources d new,
      All-append (λ x. identity_invalid x ≡ false) p.resources (r ∷ []) v (good, tt),
    )
  ]
]
  where
    grown : q.resources ≡ p.resources ++ (r ∷ [])
    grown = ground arith

take_items-IsProper :
    (rs : List Resource) (p q : Progress)
    → take_items rs p ≡ fine q
    → IsProper p.resources
    → IsProper q.resources
unfolding take_items
take_items-IsProper [] p q h v = rw (sym (fine_injective h)) v
take_items-IsProper (r ∷ rs) p q h v = elim (Checked-cases (take_resource r p)) [
  | inr (e, bad) ↦ absurd (ground arith)
  | inl (p', ok) ↦
      take_items-IsProper rs p' q (sym (take_items-step r rs p p' ok) ∙ h)
        (take_resource-IsProper r p p' ok v)
]

concluded :
    (q : Progress) (k m : ℕ) (rs : List Resource)
    → conclude q k ≡ fine (rs, m)
    → (q.resources ≡ rs) × (k ≡ m)
unfolding conclude
concluded q k m rs h = elim (Bool-cases (exposes_member q.resources q.seen_member_ids)) [
  | inl exposed ↦ absurd (ground arith)
  | inr apart ↦ (ground arith, ground arith)
]

module _ (s : SyncSettings) (client : Client) where
  after_page :
      (n k : ℕ) (expected : Option Page) (p q : Progress) (page : Page)
      → client k s.page_size (length p.resources) (expected_id expected) ≡ fine page
      → validate_page s (length p.resources) expected page ≡ none
      → take_items page.items p ≡ fine q
      → fetch_pages s client (suc n) k expected p ≡ (
          if length q.resources == page.total
          then conclude q k
          else fetch_pages s client n (k + 1) (some page) q)
  unfolding fetch_pages
  after_page n k expected p q page got good taken = rw (got, fetch_pages) (rw (good, taken) refl)

  fetch_pages-IsProper :
      (n k m : ℕ) (expected : Option Page) (p : Progress) (rs : List Resource)
      → IsProper p.resources
      → fetch_pages s client n k expected p ≡ fine (rs, m)
      → IsProper rs × (m < k + n)
  unfolding fetch_pages conclude
  fetch_pages-IsProper zero k m expected p rs v h = absurd cc
  fetch_pages-IsProper (suc n) k m expected p rs v h =
      elim (Checked-cases (client k s.page_size (length p.resources) (expected_id expected))) [
        | inr (e, bad) ↦ absurd (ground arith)
        | inl (page, got) ↦
            elim (Option-cases (validate_page s (length p.resources) expected page)) [
              | inr (e, bad) ↦ absurd (ground arith)
              | inl good ↦ elim (Checked-cases (take_items page.items p)) [
                | inr (e, bad) ↦ absurd (ground arith)
                | inl (q, taken) ↦
                    let v' = take_items-IsProper page.items p q taken v in
                    let step = sym (after_page n k expected p q page got good taken) ∙ h in
                    elim (Bool-cases (length q.resources == page.total)) [
                      | inl done ↦
                          let (same, last) = concluded q k m rs (rw done at step) in
                          (rw (sym same) v', omega (arith, last))
                      | inr more ↦
                          let (proper, below) =
                            fetch_pages-IsProper n (k + 1) m (some page) q rs v'
                              (rw more at step) in
                          (proper, omega (arith, below))
                    ]
              ]
            ]
      ]

  -- Whatever the Agent answers, an inventory that is returned holds no two resources with the same
  -- identity, every operational resource has a kind and a policy and is operable, every other one
  -- has none of these, and no more pages than allowed were asked for.
  pub fetch_complete-IsProper :
      (rs : List Resource) (m : ℕ)
      → fetch_complete_inventory s client ≡ fine (rs, m)
      → Distinct rs × All (λ r. identity_invalid r ≡ false) rs × (m ≤ s.max_pages)
  unfolding fetch_complete_inventory
  fetch_complete-IsProper rs m h =
      let (proper, below) = fetch_pages-IsProper s.max_pages 1 m none no_progress rs (tt, tt) h in
      (proper.0, proper.1, omega (arith, below))
