-- ===== src/Backend/Targets/Presence.antt =====
-- Which targets of the connection are present after a synchronisation
-- (repositories/agent_inventory_repository.py).
use mathlib.Core.List.{Memᴰ}
use node_conductor.Base.{
  ℕ, Text, ◌≡◌, refl, sym, ◌∙◌, ap, subst, inl, inr, Bool, true, false, Option, none, some, List,
  [], ◌∷◌, arith, map, ◌&&◌, ◌||◌, ◌==◌, ◌≤◌, Bool-cases,
}
use node_conductor.Table.{count_where, find_where}
use node_conductor.Table.Rows.{find_passes}
use node_conductor.Table.First.{find_unique}
use node_conductor.Table.Serial.{Serial}
use node_conductor.Table.Upsert.{find-mem, upsert-finds, upsert-row}
use node_conductor.Agent.Schema.{TargetKind, Resource, same_kind}
use node_conductor.Agent.Policies.Laws.{same_kind_refl}
use node_conductor.Backend.Written.{wrote, wrote_injective}
use node_conductor.Backend.Targets.{
  TargetRow, target_with_id, docker, has_key, of_connection, new_target, observed_target, any_id,
}
use node_conductor.Backend.Targets.Sync.{upsert_resources, row_id}
use node_conductor.Backend.Targets.Applied.{IsUpserted, upsert_resources-step}
use node_conductor.Backend.Targets.Valid.{IsKeyed, upserted-IsKeyed, upsert_resources-IsKeyed}
use node_conductor.Backend.Targets.Found.{IsFound, upsert_resources-IsFound}

abbrev pub names : Option TargetKind → Text → TargetKind → Text → Bool
names none t k' t' = false
names (some k) t k' t' = same_kind k' k && t' == t

abbrev pub is_named : Option TargetKind → Text → TargetRow → Bool
is_named o t r = names o t r.target_kind r.target

-- Whether one of the resources is what the row stands for on its connection.
unfoldable pub is_observed : List Resource → TargetRow → Bool
is_observed [] r = false
is_observed (x ∷ xs) r = is_named x.target_kind x.target r || is_observed xs r

-- Two rows of a table with unique ids, or unique keys, that pass the same test are one.
one_row :
    (p : TargetRow → Bool) (rows : List TargetRow) (y z : TargetRow)
    → Memᴰ y rows
    → find_where p rows ≡ some z
    → p y ≡ true
    → count_where p rows ≤ 1
    → y ≡ z
one_row p rows y z m e h one = ground (arith, find_unique p y m h one, e)

-- The row that an upsert returns, in the table that it leaves.
record IsKept (c : Text) (k : TargetKind) (t : Text) (r : TargetRow) : Type 0 where
  key : has_key docker c k t r ≡ true
  present : r.is_present ≡ true

row_stays :
    (c : Text) (now : ℕ) (x : Resource) (t u : Serial TargetRow) (r : TargetRow)
    (d : IsUpserted c now x t u r)
    → IsKeyed u.rows u.next_id
    → IsFound (IsKept c d.kind x.target) r.id u.rows
row_stays c now x t u r d v = record {
  row = r;
  at =
      find_unique (target_with_id r.id) r (find-mem same u.rows r there) (ground arith)
        (v.ids_unique r.id);
  holds = record {
    key = find_passes same u.rows r there;
    present =
        subst (λ (z : TargetRow). z.is_present ≡ true) (ap (λ p. p.1) d.done)
          (upsert-row (λ z. z.is_present ≡ true) same new change t (λ n. refl) (λ z. refl));
  };
}
  where
    same : TargetRow → Bool
    same = has_key docker c d.kind x.target

    new : ℕ → TargetRow
    new = new_target c now d.kind d.policy x

    change : TargetRow → TargetRow
    change = observed_target now d.policy x

    there : find_where same u.rows ≡ some r
    there =
        subst (λ (p : Serial TargetRow × TargetRow). find_where same p.0.rows ≡ some p.1) d.done
          (upsert-finds same new change t (λ n. ground (arith, same_kind_refl d.kind)) (λ z. refl))

is_named-key :
    (c : Text) (k : TargetKind) (t : Text) (o : Option TargetKind) (y : TargetRow)
    → o ≡ some k
    → of_connection c y ≡ true
    → has_key docker c k t y ≡ is_named o t y
is_named-key c k t o y e own = rw e (ground arith)

-- A row of the connection is named by a resource just when it has the id of the row that was kept
-- for that resource.
named_row :
    (c : Text) (k : TargetKind) (t : Text) (i : ℕ) (rows : List TargetRow) (n : ℕ) (y : TargetRow)
    → IsKeyed rows n
    → IsFound (IsKept c k t) i rows
    → Memᴰ y rows
    → ((y.id == i) ≡ has_key docker c k t y) × (has_key docker c k t y ≡ true → y.is_present ≡ true)
named_row c k t i rows n y v p m = elim (Bool-cases (has_key docker c k t y)) [
  | inl named ↦
      let e = one_row _ rows y p.row m same named (v.keys_unique docker c k t) in
      (
        ap (λ (z : TargetRow). z.id == i) e ∙ own_id ∙ sym named,
        λ _. ap (λ (z : TargetRow). z.is_present) e ∙ p.holds.present,
      )
  | inr other ↦ (rw other (different other (y.id == i) refl), λ f. absurd cc)
]
  where
    same : find_where (has_key docker c k t) rows ≡ some p.row
    same =
        find_unique (has_key docker c k t) p.row (find-mem _ rows p.row p.at) p.holds.key
          (v.keys_unique docker c k t)

    own_id : (p.row.id == i) ≡ true
    own_id = find_passes (target_with_id i) rows p.row p.at

    different : has_key docker c k t y ≡ false → (b : Bool) → (y.id == i) ≡ b → b ≡ false
    different other false f = refl
    different other true f =
        let e = one_row (target_with_id i) rows y p.row m p.at f (v.ids_unique i) in
        absurd (ground (arith, ap (has_key docker c k t) e, p.holds.key))

module _ (c : Text) (now : ℕ) where
  -- The loop over the resources: the rows of the connection whose ids it returns are those that
  -- the resources name, and they are present.
  pub upsert_resources-presence :
      (xs : List Resource) (t t' : Serial TargetRow) (rs : List TargetRow) (y : TargetRow)
      → IsKeyed t.rows t.next_id
      → upsert_resources c now xs t ≡ wrote (t', rs)
      → Memᴰ y t'.rows
      → of_connection c y ≡ true
      → (any_id y.id (map row_id rs) ≡ is_observed xs y)
        × (is_observed xs y ≡ true → y.is_present ≡ true)
  unfolding upsert_resources any_id is_observed
  upsert_resources-presence [] t t' rs y v h m own = (
    subst (λ zs. any_id y.id (map row_id zs) ≡ false) (ap (λ p. p.1) (wrote_injective h)) refl,
    λ e. absurd cc,
  )
  upsert_resources-presence (x ∷ xs) t t' rs y v h m own =
      let (u, r, more, d, rest, all) = upsert_resources-step c now x xs t t' rs h in
      let w = upserted-IsKeyed c now x t u r d v in
      let w' = upsert_resources-IsKeyed c now xs u t' more rest w in
      let (ids, here) = upsert_resources-presence xs u t' more y w rest m own in
      let p =
        upsert_resources-IsFound (IsKept c d.kind x.target) r.id c now xs u t' more
          (λ k m z s e q. record { key = q.key; present = refl }) rest
          (row_stays c now x t u r d w) in
      let (ids', here') = named_row c d.kind x.target r.id t'.rows t'.next_id y w' p m in
      let name = is_named-key c d.kind x.target x.target_kind y d.has_kind own in
      (
        subst (λ zs. any_id y.id (map row_id zs) ≡ is_observed (x ∷ xs) y) (sym all)
            (rw (ids, ids', name) refl),
        λ e.
            either (is_named x.target_kind x.target y) (is_observed xs y) (λ f. here' (name ∙ f))
              here e,
      )
    where
      either :
          (a b : Bool)
          → (a ≡ true → y.is_present ≡ true)
          → (b ≡ true → y.is_present ≡ true)
          → a || b ≡ true
          → y.is_present ≡ true
      either true b f g e = f refl
      either false b f g e = g e
