-- ===== src/Backend/Targets/Found.antt =====
-- One row of the table `targets`, followed by its id through the statements of a synchronisation.
use node_conductor.Base.{
  ℕ, Text, ◌≡◌, refl, sym, subst, ap, inl, inr, Bool, true, false, some, List, [], ◌∷◌, ◌++◌,
  if◌then◌else◌, Bool-cases,
}
use node_conductor.Table.{find_where, update_where}
use node_conductor.Table.Rows.{find-update, find-append}
use node_conductor.Table.Serial.{Serial}
use node_conductor.Table.Upsert.{find-upsert}
use node_conductor.Agent.Schema.{TargetKind, ManagementPolicy, Resource}
use node_conductor.Backend.Written.{wrote, wrote_injective}
use node_conductor.Backend.Targets.{
  TargetRow, target_with_id, docker, has_key, new_target, observed_target, is_legacy_member,
  is_left_out, disable_legacy_member_targets, mark_targets_absent,
}
use node_conductor.Backend.Targets.Sync.{
  Tables, Report, upsert_resources, synchronize_inventory_rows,
}
use node_conductor.Backend.Targets.Applied.{
  IsUpserted, upsert_resources-step, synchronize-IsApplied, settled_rows,
}

-- The row with this id is there and has a property.
pub record IsFound (Q : TargetRow → Type 0) (i : ℕ) (rows : List TargetRow) : Type 0 where
  pub row : TargetRow
  pub at : find_where (target_with_id i) rows ≡ some row
  pub holds : Q row

module _ (Q : TargetRow → Type 0) (i : ℕ) where
  changed-IsFound :
      (q : TargetRow → Bool) (f : TargetRow → TargetRow) (rows rows' : List TargetRow)
      → ((r : TargetRow) → q r ≡ true → Q r → Q (f r))
      → (p : IsFound Q i rows)
      → find_where (target_with_id i) rows' ≡ some (if q p.row then f p.row else p.row)
      → IsFound Q i rows'
  changed-IsFound q f rows rows' keep p h = elim (Bool-cases (q p.row)) [
    | inl e ↦ record { row = f p.row; at = rw e at h; holds = keep p.row e p.holds }
    | inr e ↦ record { row = p.row; at = rw e at h; holds = p.holds }
  ]

  pub update-IsFound :
      (q : TargetRow → Bool) (f : TargetRow → TargetRow) (rows : List TargetRow)
      → ((r : TargetRow) → (f r).id ≡ r.id)
      → ((r : TargetRow) → q r ≡ true → Q r → Q (f r))
      → IsFound Q i rows
      → IsFound Q i (update_where q f rows)
  update-IsFound q f rows ids keep p =
      changed-IsFound q f rows (update_where q f rows) keep p
        (find-update (target_with_id i) q f rows p.row (λ r. rw (ids r) refl) p.at)

  pub append-IsFound :
      (rows : List TargetRow) (new : TargetRow)
      → IsFound Q i rows
      → IsFound Q i (rows ++ (new ∷ []))
  append-IsFound rows new p = record {
    row = p.row;
    at = find-append (target_with_id i) rows new p.row p.at;
    holds = p.holds;
  }

  module _ (c : Text) (now : ℕ) where
    -- A property that an observation of the row keeps.
    abbrev pub IsObservable : Type 0
    IsObservable =
        (k : TargetKind) (m : ManagementPolicy) (x : Resource) (r : TargetRow)
        → has_key docker c k x.target r ≡ true
        → Q r
        → Q (observed_target now m x r)

    upserted-IsFound :
        (x : Resource) (t u : Serial TargetRow) (r : TargetRow)
        → IsObservable
        → IsUpserted c now x t u r
        → IsFound Q i t.rows
        → IsFound Q i u.rows
    upserted-IsFound x t u r keep d p =
        subst (λ (v : Serial TargetRow). IsFound Q i v.rows) (ap (λ v. v.0) d.done)
          (changed-IsFound same change t.rows _ (keep d.kind d.policy x) p (
            find-upsert (target_with_id i) same (new_target c now d.kind d.policy x) change t p.row
              (λ r. refl) p.at))
      where
        same : TargetRow → Bool
        same = has_key docker c d.kind x.target

        change : TargetRow → TargetRow
        change = observed_target now d.policy x

    pub upsert_resources-IsFound :
        (xs : List Resource) (t t' : Serial TargetRow) (rs : List TargetRow)
        → IsObservable
        → upsert_resources c now xs t ≡ wrote (t', rs)
        → IsFound Q i t.rows
        → IsFound Q i t'.rows
    unfolding upsert_resources
    upsert_resources-IsFound [] t t' rs keep h p =
        subst (λ (v : Serial TargetRow × List TargetRow). IsFound Q i v.0.rows) (wrote_injective h)
          p
    upsert_resources-IsFound (x ∷ xs) t t' rs keep h p =
        let (u, r, more, done, rest, _) = upsert_resources-step c now x xs t t' rs h in
        upsert_resources-IsFound xs u t' more keep rest (upserted-IsFound x t u r keep done p)

    pub synchronize-IsFound :
        (resources : List Resource) (db db' : Tables) (report : Report)
        → IsObservable
        → ((members : List Text) (r : TargetRow)
            → is_legacy_member c members r ≡ true
            → Q r
            → Q (record r { is_pilotable = false; is_present = false }))
        → ((ids : List ℕ) (r : TargetRow)
            → is_left_out c ids r ≡ true
            → Q r
            → Q (record r { is_present = false }))
        → synchronize_inventory_rows c resources now db ≡ wrote (db', report)
        → IsFound Q i db.targets.rows
        → IsFound Q i db'.targets.rows
    unfolding disable_legacy_member_targets mark_targets_absent
    synchronize-IsFound resources db db' report keep disable leave h p =
        let a = synchronize-IsApplied c resources now db db' report h in
        subst (IsFound Q i) (sym (settled_rows c resources now db db' report a)) (
          update-IsFound _ _ _ (λ r. refl) (leave _)
            (update-IsFound _ _ _ (λ r. refl) (disable _)
              (upsert_resources-IsFound _ db.targets a.targets a.synchronized keep a.upserted p)))
