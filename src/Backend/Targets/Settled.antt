-- ===== src/Backend/Targets/Settled.antt =====
-- The targets after the whole of `synchronize_inventory_rows`
-- (repositories/agent_inventory_repository.py).
use mathlib.Core.List.{Memᴰ}
use node_conductor.Base.{
  ℕ, Text, ◌≡◌, refl, sym, ◌∙◌, ap, subst, inl, inr, Bool, true, false, List, [], ◌∷◌, ◌++◌, arith,
  map, not, ◌&&◌, ◌||◌, if◌then◌else◌, Bool-cases,
}
use node_conductor.Table.Serial.{Serial}
use node_conductor.Table.Upsert.{update-mem}
use node_conductor.Agent.Schema.{Resource}
use node_conductor.Backend.Written.{wrote}
use node_conductor.Backend.Targets.{
  TargetRow, of_connection, any_id, is_legacy_member, is_left_out, disable_legacy_member_targets,
  mark_targets_absent,
}
use node_conductor.Backend.Targets.Sync.{
  Tables, Report, operational_among, upsert_resources, row_id, docker_id_of, member_docker_ids,
  synchronize_inventory_rows,
}
use node_conductor.Backend.Targets.Applied.{
  upsert_resources-step, synchronize-IsApplied, settled_rows,
}
use node_conductor.Backend.Targets.Valid.{IsKeyed}
use node_conductor.Backend.Targets.Presence.{is_named, is_observed, upsert_resources-presence}

-- The Docker ids of all members of the resources.
unfoldable pub docker_ids_among : List Resource → List Text
docker_ids_among [] = []
docker_ids_among (x ∷ xs) = map docker_id_of x.members ++ docker_ids_among xs

member_docker_ids-all :
    (c : Text) (now : ℕ) (xs : List Resource) (t t' : Serial TargetRow) (rs : List TargetRow)
    → upsert_resources c now xs t ≡ wrote (t', rs)
    → member_docker_ids xs rs ≡ docker_ids_among xs
unfolding member_docker_ids docker_ids_among
member_docker_ids-all c now [] t t' rs h = refl
member_docker_ids-all c now (x ∷ xs) t t' rs h =
    let (u, r, more, d, rest, all) = upsert_resources-step c now x xs t t' rs h in
    subst (λ zs. member_docker_ids (x ∷ xs) zs ≡ docker_ids_among (x ∷ xs)) (sym all)
      (ap (λ ids. map docker_id_of x.members ++ ids)
        (member_docker_ids-all c now xs u t' more rest))

abbrev disabled : TargetRow → TargetRow
disabled r = record r { is_pilotable = false; is_present = false }

abbrev absent : TargetRow → TargetRow
absent r = record r { is_present = false }

abbrev settled_row : Text → List Text → List ℕ → TargetRow → TargetRow
settled_row c members ids r =
    let r' = if is_legacy_member c members r then disabled r else r in
    if is_left_out c ids r' then absent r' else r'

-- The rows at the end come from the rows after the upserts.
settled-mem :
    (c : Text) (members : List Text) (ids : List ℕ) (rows : List TargetRow) (y : TargetRow)
    → Memᴰ y (mark_targets_absent c ids (disable_legacy_member_targets c members rows)).0
    → (r : TargetRow) × Memᴰ r rows × (y ≡ settled_row c members ids r)
unfolding mark_targets_absent disable_legacy_member_targets
settled-mem c members ids rows y m =
    let (r', m', e') = update-mem (is_left_out c ids) absent y _ m in
    let (r, m'', e) = update-mem (is_legacy_member c members) disabled r' rows m' in
    (r, m'', e' ∙ ap (λ z. if is_left_out c ids z then absent z else z) e)

-- What becomes of a row of the connection, by whether it is observed and a member.
settled_row-presence :
    (c : Text) (members : List Text) (ids : List ℕ) (observed : Bool) (r : TargetRow)
    → of_connection c r ≡ true
    → any_id r.id ids ≡ observed
    → (observed ≡ true → r.is_present ≡ true)
    → (settled_row c members ids r).is_present ≡ observed && not (is_legacy_member c members r)
settled_row-presence c members ids observed r own e h =
    elim (Bool-cases (is_legacy_member c members r)) [
      | inl member ↦ rw member (ground arith)
      | inr other ↦ rw other (ground arith)
    ]

is_observed-flags :
    (xs : List Resource) (r : TargetRow) (p p' : Bool)
    → is_observed xs (record r { is_pilotable = p; is_present = p' }) ≡ is_observed xs r
unfolding is_observed
is_observed-flags [] r p p' = refl
is_observed-flags (x ∷ xs) r p p' =
    ap (λ b. is_named x.target_kind x.target r || b) (is_observed-flags xs r p p')

-- A column that the two last statements leave alone.
settled-same {ℓ} :
    {B : Type ℓ} (g : TargetRow → B) (c : Text) (members : List Text) (ids : List ℕ) (r : TargetRow)
    → ((z : TargetRow) → g (disabled z) ≡ g z)
    → ((z : TargetRow) → g (absent z) ≡ g z)
    → g (settled_row c members ids r) ≡ g r
settled-same g c members ids r d a =
    one (is_left_out c ids (if is_legacy_member c members r then disabled r else r))
      (if is_legacy_member c members r then disabled r else r)
    ∙ two (is_legacy_member c members r)
  where
    one : (b : Bool) (z : TargetRow) → g (if b then absent z else z) ≡ g z
    one true z = a z
    one false z = refl

    two : (b : Bool) → g (if b then disabled r else r) ≡ g r
    two true = d r
    two false = refl

-- After a synchronisation, a target of the connection is present just when the inventory holds an
-- operational resource of its kind and name, unless it is a standalone container that the
-- inventory reports as the member of a project. This needs the keys of the table to be unique.
pub synchronize-presence :
    (c : Text) (resources : List Resource) (now : ℕ) (db db' : Tables) (report : Report)
    (y : TargetRow)
    → IsKeyed db.targets.rows db.targets.next_id
    → synchronize_inventory_rows c resources now db ≡ wrote (db', report)
    → Memᴰ y db'.targets.rows
    → of_connection c y ≡ true
    → y.is_present ≡ (
        is_observed (operational_among resources) y
        && not (is_legacy_member c (docker_ids_among (operational_among resources)) y))
synchronize-presence c resources now db db' report y v h m own =
    let a = synchronize-IsApplied c resources now db db' report h in
    let xs = operational_among resources in
    let ids = map row_id a.synchronized in
    let all = member_docker_ids-all c now xs db.targets a.targets a.synchronized a.upserted in
    let m' =
      subst (Memᴰ y)
        (settled_rows c resources now db db' report a
          ∙ ap
              (λ (us : List Text).
                (mark_targets_absent c ids (disable_legacy_member_targets c us a.targets.rows)).0)
              all)
        m in
    let (r, n, e) = settled-mem c (docker_ids_among xs) ids a.targets.rows y m' in
    let own' =
      sym (settled-same (of_connection c) c (docker_ids_among xs) ids r (λ z. refl) (λ z. refl))
      ∙ sym (ap (of_connection c) e)
      ∙ own in
    let (listed, here) =
      upsert_resources-presence c now xs db.targets a.targets a.synchronized r v a.upserted n
        own' in
    ap (λ (z : TargetRow). z.is_present) e
    ∙ settled_row-presence c (docker_ids_among xs) ids (is_observed xs r) r own' listed here
    ∙ sym (
        settled-same (λ z. is_observed xs z && not (is_legacy_member c (docker_ids_among xs) z)) c
          (docker_ids_among xs) ids r (λ z. rw (is_observed-flags xs z false false) refl)
          (λ z. rw (is_observed-flags xs z z.is_pilotable false) refl))
    ∙ sym (ap (λ z. is_observed xs z && not (is_legacy_member c (docker_ids_among xs) z)) e)
