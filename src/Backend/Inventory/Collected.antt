-- ===== src/Backend/Inventory/Collected.antt =====
-- The collection from an Agent that serves the pages of one snapshot (`_fetch_complete_inventory`
-- of services/agent_inventory_sync.py).
use node_conductor.Base.{
  ℕ, zero, suc, ◌+◌, ◌-◌, ◌*◌, ◌≤◌, ◌<◌, ◌≡◌, refl, sym, ◌∙◌, ap, ◌⊎◌, inl, inr, true, false,
  Option, none, some, List, [], ◌∷◌, ◌++◌, ◌==◌, arith, if◌then◌else◌, length, take, drop,
  length-take, length-append, drop-append, take-append-drop, append_assoc, append_nil, length-zero,
  Bool-cases, ==_iff,
}
use node_conductor.Agent.Schema.{Resource}
use node_conductor.Agent.Inventory.{ProtectionStatus, Page, Stored, page_of}
use node_conductor.Backend.Inventory.{
  SyncSettings, SyncError, Checked, fine, error, Client, same_status, validate_page, Progress,
  no_progress, take_resource, take_items, conclude, fetch_pages, fetch_complete_inventory,
  exposes_member,
}

pub Checked-cases {ℓ} :
    {A : Type ℓ} (o : Checked A) → ((a : A) × (o ≡ fine a)) ⊎ ((e : SyncError) × (o ≡ error e))
Checked-cases (fine a) = inl (a, refl)
Checked-cases (error e) = inr (e, refl)

take_resource-resources :
    (r : Resource) (p p' : Progress)
    → take_resource r p ≡ fine p'
    → p'.resources ≡ p.resources ++ (r ∷ [])
unfolding take_resource
take_resource-resources r p p' h = ground arith

pub take_items-step :
    (r : Resource) (rs : List Resource) (p q : Progress)
    → take_resource r p ≡ fine q
    → take_items (r ∷ rs) p ≡ take_items rs q
unfolding take_items
take_items-step r rs p q ok = rw (ok, take_items) refl

-- What is taken is appended.
take_items-resources :
    (rs : List Resource) (p p' : Progress)
    → take_items rs p ≡ fine p'
    → p'.resources ≡ p.resources ++ rs
unfolding take_items
take_items-resources [] p p' h = sym (append_nil p.resources ∙ ap resources_of h)
  where
    resources_of : Checked Progress → List Resource
    resources_of (fine q) = q.resources
    resources_of (error e) = p.resources
take_items-resources (r ∷ rs) p p' h = elim (Checked-cases (take_resource r p)) [
  | inr (e, bad) ↦ absurd (ground arith)
  | inl (q, ok) ↦
      take_items-resources rs q p' (sym (take_items-step r rs p q ok) ∙ h)
      ∙ rw (take_resource-resources r p q ok) (append_assoc p.resources (r ∷ []) rs)
]

-- A list that is taken as a whole is taken in two parts.
take_items-split :
    (xs ys : List Resource) (p f : Progress)
    → take_items (xs ++ ys) p ≡ fine f
    → (q : Progress) × (take_items xs p ≡ fine q) × (take_items ys q ≡ fine f)
unfolding take_items
take_items-split [] ys p f h = (p, refl, h)
take_items-split (r ∷ xs) ys p f h = elim (Checked-cases (take_resource r p)) [
  | inr (e, bad) ↦ absurd (ground arith)
  | inl (q, ok) ↦
      let (q', first, second) =
        take_items-split xs ys q f (sym (take_items-step r (xs ++ ys) p q ok) ∙ h) in
      (q', take_items-step r xs p q ok ∙ first, second)
]

same_status_refl : (st : ProtectionStatus) → same_status st st ≡ true
same_status_refl ProtectionStatus.not_configured = refl
same_status_refl ProtectionStatus.protected = refl
same_status_refl ProtectionStatus.configured_absent = refl
same_status_refl ProtectionStatus.configured_inconsistent = refl

-- An Agent that serves the pages of one snapshot.
abbrev pub serving : Stored → Client
serving x k limit offset id = fine (page_of limit offset x)

-- The page before, if there was one, was cut from this snapshot.
abbrev FromSnapshot : Stored → Option Page → Type 0
FromSnapshot x none = Unit
FromSnapshot x (some q) =
    (q.total ≡ length x.resources)
    × (q.snapshot_id ≡ x.id)
    × (q.observed_at ≡ x.observed_at)
    × (q.status ≡ x.status)

length-drop : (n : ℕ) (xs : List Resource) → length (drop n xs) ≡ length xs - n
length-drop zero xs = omega arith
length-drop (suc n) [] = omega arith
length-drop (suc n) (x ∷ xs) = omega (arith, length-drop n xs)

-- A page of the snapshot passes the validation.
page-valid :
    (s : SyncSettings) (x : Stored) (offset : ℕ) (expected : Option Page)
    → length x.resources ≤ s.page_size * s.max_pages
    → FromSnapshot x expected
    → validate_page s offset expected (page_of s.page_size offset x) ≡ none
unfolding validate_page
page-valid s x offset none small h =
    ground
      (arith, length-take s.page_size (drop offset x.resources), length-drop offset x.resources)
page-valid s x offset (some q) small (t, i, o, st) =
    rw (t, i, o, st, same_status_refl x.status)
      (ground
        (arith, length-take s.page_size (drop offset x.resources), length-drop offset x.resources))

pub fine_injective {ℓ} : {A : Type ℓ} {a b : A} → fine a ≡ fine b → a ≡ b
fine_injective e = cc

one_page_less : (n m : ℕ) → m * suc n ≡ m * n + m
one_page_less n m = omega arith

positive : (n m : ℕ) → 1 ≤ m * n → 1 ≤ n
positive zero m h = absurd (omega arith)
positive (suc n) m h = omega arith

module _ (s : SyncSettings) (x : Stored) (final : Progress) (some_size : 1 ≤ s.page_size)
    (small : length x.resources ≤ s.page_size * s.max_pages)
    (apart : exposes_member final.resources final.seen_member_ids ≡ false) where
  -- One page more.
  fetch-step :
      (n k : ℕ) (expected : Option Page) (p q : Progress) (ys : List Resource)
      → x.resources ≡ p.resources ++ ys
      → take_items (take s.page_size ys) p ≡ fine q
      → FromSnapshot x expected
      → fetch_pages s (serving x) (suc n) k expected p ≡ (
          if length q.resources == length x.resources
          then conclude q k
          else fetch_pages s
              (serving x)
              n
              (k + 1)
              (some (page_of s.page_size (length p.resources) x))
              q)
  unfolding fetch_pages
  fetch-step n k expected p q ys e first from =
      rw (page-valid s x (length p.resources) expected small from, taken, fetch_pages) refl
    where
      taken : take_items (page_of s.page_size (length p.resources) x).items p ≡ fine q
      taken = rw (e, drop-append p.resources ys) first

  -- The last page.
  last-page :
      (k : ℕ) (p q : Progress) (ys : List Resource)
      → x.resources ≡ p.resources ++ ys
      → take_items ys p ≡ fine final
      → q.resources ≡ p.resources ++ take s.page_size ys
      → take_items (drop s.page_size ys) q ≡ fine final
      → length q.resources ≡ length x.resources
      → conclude q k ≡ fine (x.resources, k)
  unfolding conclude take_items
  last-page k p q ys e whole grown second same =
      rw (fine_injective (rw (length-zero (drop s.page_size ys) none_left) at second), apart)
        (rw (take_items-resources ys p final whole, e) refl)
    where
      none_left : length (drop s.page_size ys) ≡ 0
      none_left = omega (
        arith,
        same,
        ap length grown ∙ length-append p.resources (take s.page_size ys),
        ap length e ∙ length-append p.resources ys,
        length-take s.page_size ys,
        length-drop s.page_size ys,
      )

  remains :
      (q : Progress) (ys : List Resource) (p : Progress)
      → x.resources ≡ p.resources ++ ys
      → q.resources ≡ p.resources ++ take s.page_size ys
      → x.resources ≡ q.resources ++ drop s.page_size ys
  remains q ys p e grown =
      e
      ∙ sym (
          rw grown (
            append_assoc p.resources (take s.page_size ys) (drop s.page_size ys)
            ∙ ap (λ l. p.resources ++ l) (take-append-drop s.page_size ys)))

  more_left :
      (n : ℕ) (q p : Progress) (ys : List Resource)
      → x.resources ≡ p.resources ++ ys
      → q.resources ≡ p.resources ++ take s.page_size ys
      → (length q.resources == length x.resources) ≡ false
      → length ys ≤ s.page_size * suc n
      → 1 ≤ s.page_size * n
  more_left n q p ys e grown more room = ground (
    arith,
    ap length grown ∙ length-append p.resources (take s.page_size ys),
    ap length e ∙ length-append p.resources ys,
    length-take s.page_size ys,
    one_page_less n s.page_size,
  )

  -- The pages that are left, if they are enough, complete the inventory.
  collects :
      (n k : ℕ) (expected : Option Page) (p : Progress) (ys : List Resource)
      → x.resources ≡ p.resources ++ ys
      → take_items ys p ≡ fine final
      → length ys ≤ s.page_size * n
      → 1 ≤ n
      → FromSnapshot x expected
      → (m : ℕ) × (m < k + n) × (fetch_pages s (serving x) n k expected p ≡ fine (x.resources, m))
  collects zero k expected p ys e whole room left from = absurd (omega arith)
  collects (suc n) k expected p ys e whole room left from =
      let (q, first, second) =
        take_items-split (take s.page_size ys) (drop s.page_size ys) p final
          (rw (take-append-drop s.page_size ys) whole) in
      let grown = take_items-resources (take s.page_size ys) p q first in
      let step = fetch-step n k expected p q ys e first from in
      elim (Bool-cases (length q.resources == length x.resources)) [
        | inl done ↦ (
          k,
          omega arith,
          step ∙ rw done (last-page k p q ys e whole grown second ((==_iff _ _).0 done)),
        )
        | inr more ↦
            let (m, below, rest) =
              collects n (k + 1) (some (page_of s.page_size (length p.resources) x)) q
                (drop s.page_size ys) (remains q ys p e grown) second
                (omega (arith, room, one_page_less n s.page_size, length-drop s.page_size ys))
                (positive n s.page_size (more_left n q p ys e grown more room))
                (refl, refl, refl, refl) in
            (m, omega (arith, below), step ∙ rw more rest)
      ]

-- From an Agent that serves one snapshot, whose resources pass the checks when they are taken as
-- one page, and that fits into the pages allowed, the collection returns all resources of the
-- snapshot, in order, whatever the page size, within the allowed number of pages.
pub fetch_complete-snapshot :
    (s : SyncSettings) (x : Stored) (final : Progress)
    → 1 ≤ s.page_size
    → 1 ≤ s.max_pages
    → length x.resources ≤ s.page_size * s.max_pages
    → take_items x.resources no_progress ≡ fine final
    → exposes_member final.resources final.seen_member_ids ≡ false
    → (m : ℕ) × (m ≤ s.max_pages) × (fetch_complete_inventory s (serving x) ≡ fine (x.resources, m))
unfolding fetch_complete_inventory
fetch_complete-snapshot s x final some_size some_pages small whole apart =
    let (m, below, collected) =
      collects s x final some_size small apart s.max_pages 1 none no_progress x.resources refl whole
        small some_pages tt in
    (m, omega (arith, below), collected)
