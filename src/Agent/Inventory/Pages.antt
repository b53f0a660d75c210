-- ===== src/Agent/Inventory/Pages.antt =====
-- The pages of one snapshot, and the snapshots that are kept (`list_resources` of
-- inventory_service.py).
use node_conductor.Base.{
  ℕ, suc, ◌≤◌, Text, ◌≡◌, refl, Option, none, some, List, [], ◌∷◌, ◌++◌, arith, length, ltb, ◌==◌,
  Bool-cases, inl, inr, is_none, ◌&&◌,
}
use node_conductor.Agent.Schema.{Snapshot}
use node_conductor.Agent.Policies.{Store}
use node_conductor.Agent.Inventory.{
  Protection, Stored, evict, find_stored, page_of, list_resources, build_resources,
}

length-evict : (xs : List Stored) → length (evict xs) ≤ 4
unfolding evict
length-evict [] = omega arith
length-evict (x ∷ xs) = elim (Bool-cases (ltb 4 (length (x ∷ xs)))) [
  | inl full ↦ rw full (length-evict xs)
  | inr fits ↦ rw fits (ground arith)
]

-- A listing that finds at most four snapshots kept, of whatever page, leaves at most four.
pub at_most_four :
    (cfg : Protection) (limit offset : ℕ) (id : Option Text) (now : ℕ) (uuid : Text)
    (cs : List Snapshot) (xs : List Stored) (s : Store)
    → length xs ≤ 4
    → length (list_resources cfg limit offset id now uuid cs xs s).1 ≤ 4
unfolding list_resources
at_most_four cfg limit offset id now uuid cs xs s h =
    elim (Bool-cases (offset == 0 && is_none id)) [
      | inl fresh ↦ rw fresh (length-evict _)
      | inr stored ↦ rw stored h
    ]

kept :
    (u : Text) (xs : List Stored) (new : Stored)
    → new.id ≡ u
    → find_stored u xs ≡ none
    → find_stored u (evict (xs ++ (new ∷ []))) ≡ some new
unfolding find_stored evict
kept u [] new e h = ground arith
kept u (x ∷ xs) new e h = elim (Bool-cases (ltb 4 (suc (length (xs ++ (new ∷ [])))))) [
  | inl full ↦ rw full (kept u xs new e (ground arith))
  | inr fits ↦ rw fits (ground (arith, found xs))
]
  where
    found :
        (ys : List Stored) → find_stored u ys ≡ none → find_stored u (ys ++ (new ∷ [])) ≡ some new
    found [] n = ground arith
    found (y ∷ ys) n = ground (arith, found ys)

-- A later page asked of a snapshot just made, under an id that no kept one has, is the next slice
-- of the very list that the first page was cut from, with the same total, time and protection
-- status, whatever the engine lists by then.
pub next_page :
    (cfg : Protection) (limit limit' offset now now' : ℕ) (uuid uuid' : Text)
    (cs cs' : List Snapshot) (xs : List Stored) (s s' : Store)
    → find_stored uuid xs ≡ none
    → let (_, rs, status) = build_resources cfg now cs s in
      let kept_snapshot : Stored = record {
        id = uuid;
        resources = rs;
        observed_at = now;
        status = status;
      } in
      let (_, xs', first) = list_resources cfg limit 0 none now uuid cs xs s in
      (first ≡ some (page_of limit 0 kept_snapshot))
      × (list_resources cfg limit' offset (some uuid) now' uuid' cs' xs' s'
          ≡ (s', xs', some (page_of limit' offset kept_snapshot)))
unfolding list_resources
next_page cfg limit limit' offset now now' uuid uuid' cs cs' xs s s' fresh =
    let x : Stored = record {
      id = uuid;
      resources = (build_resources cfg now cs s).1;
      observed_at = now;
      status = (build_resources cfg now cs s).2;
    } in
    (
      refl,
      elim (Bool-cases (offset == 0)) [
        | inl zero_offset ↦ rw zero_offset (rw (kept uuid xs x refl fresh))
        | inr later ↦ rw later (rw (kept uuid xs x refl fresh))
      ],
    )
