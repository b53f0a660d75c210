-- ===== src/Backend/Targets/Accepted.antt =====
-- That PostgreSQL refuses no statement of a synchronisation of complete resources.
use node_conductor.Base.{
  ℕ, Text, ◌≡◌, refl, inl, inr, Bool, true, false, Option, none, some, List, [], ◌∷◌, ◌++◌, arith,
  not, ◌&&◌, ◌||◌, is_some, if◌then◌else◌, Bool-cases, Option-cases,
}
use node_conductor.Table.{find_where}
use node_conductor.Table.Serial.{Serial, upsert}
use node_conductor.Agent.Schema.{
  TargetKind, ManagementPolicy, protected, Member, Resource, same_policy, is_operational,
}
use node_conductor.Backend.Written.{
  WriteError, not_null_violation, protection_violation, Written, wrote, refused, ◌>>=◌,
}
use node_conductor.Backend.Targets.{
  Connection, TargetRow, observed_target, trigger_refuses, upsert_target, upsert_nullable,
  upsert_resource,
}
use node_conductor.Backend.Targets.Members.{
  MemberRow, IssueRow, upsert_member, upsert_issue, has_member_key, new_member, observed_member,
}
use node_conductor.Backend.Targets.Sync.{
  Tables, Report, operational_among, issues_among, connection_with_id, lock_connection,
  upsert_resources, upsert_members_of, upsert_members, upsert_issues, settle,
  synchronize_inventory_rows,
}

unfoldable pub named_services : List Member → Bool
named_services [] = true
named_services (m ∷ ms) = is_some m.compose_service && named_services ms

-- Every field is set that goes into a column that is not nullable: for an operational resource the
-- kind, the policy and the services of the members, for another one the diagnostic, and a target
-- that fits into the column docker_id.
abbrev pub is_complete : (Text → Bool) → Resource → Bool
is_complete fits x =
    if is_operational x.classification
    then is_some x.target_kind && (is_some x.management_policy && named_services x.members)
    else x.diagnostic && fits x.target

unfoldable pub all_complete : (Text → Bool) → List Resource → Bool
all_complete fits [] = true
all_complete fits (x ∷ xs) = is_complete fits x && all_complete fits xs

-- The trigger never refuses what an upsert makes of a row.
trigger_accepts :
    (now : ℕ) (m : ManagementPolicy) (x : Resource) (p : TargetRow → Bool) (rows : List TargetRow)
    → trigger_refuses p (observed_target now m x) rows ≡ false
unfolding trigger_refuses
trigger_accepts now m x p rows = elim (Option-cases (find_where p rows)) [
  | inl e ↦ rw (e, trigger_refuses) refl
  | inr (r, e) ↦ rw (e, trigger_refuses) (accepts r.protection_forced)
]
  where
    accepts :
        (b : Bool)
        → b
            && (not (b || x.protection_forced)
                || not (same_policy (if b then protected else m) protected))
          ≡ false
    accepts true = refl
    accepts false = refl

record Accepted {ℓ} {A : Type ℓ} (w : Written A) : Type ℓ where
  value : A
  same : w ≡ wrote value

accept {ℓ} : {A : Type ℓ} (a : A) → Accepted (wrote a)
accept a = record { value = a; same = refl }

accept_unless {ℓ} :
    {A : Type ℓ} (b : Bool) (e : WriteError) (a : A)
    → b ≡ false
    → Accepted (if b then refused e else wrote a)
accept_unless false e a h = accept a
accept_unless true e a h = absurd cc

accept_then {ℓ κ} :
    {A : Type ℓ} {B : Type κ} (w : Written A) (f : A → Written B)
    → Accepted w
    → ((a : A) → Accepted (f a))
    → Accepted (w >>= f)
accept_then w f a g = record { value = (g a.value).value; same = rw a.same (g a.value).same }

upsert_nullable-Accepted :
    (c : Text) (now : ℕ) (x : Resource) (t : Serial TargetRow) (k : Option TargetKind)
    (m : Option ManagementPolicy)
    → is_some k ≡ true
    → is_some m ≡ true
    → Accepted (upsert_nullable c now x t k m)
unfolding upsert_target
upsert_nullable-Accepted c now x t (some k) (some m) e f =
    accept_unless _ protection_violation _ (trigger_accepts now m x _ t.rows)
upsert_nullable-Accepted c now x t none m e f = absurd cc
upsert_nullable-Accepted c now x t (some k) none e f = absurd cc

upsert_resources-Accepted :
    (fits : Text → Bool) (c : Text) (now : ℕ) (xs : List Resource) (t : Serial TargetRow)
    → all_complete fits xs ≡ true
    → Accepted (upsert_resources c now (operational_among xs) t)
unfolding upsert_resources upsert_resource operational_among all_complete
upsert_resources-Accepted fits c now [] t h = accept (t, [])
upsert_resources-Accepted fits c now (x ∷ xs) t h =
    elim (Bool-cases (is_operational x.classification)) [
      | inr issue ↦ rw issue (upsert_resources-Accepted fits c now xs t (ground arith))
      | inl operational ↦ rw operational (
          accept_then (upsert_resource c x now t) _
            (upsert_nullable-Accepted c now x t x.target_kind x.management_policy (ground arith)
              (ground arith))
            (λ (t', r).
              accept_then (upsert_resources c now (operational_among xs) t') _
                (upsert_resources-Accepted fits c now xs t' (ground arith))
                (λ (t'', rs). accept (t'', r ∷ rs))))
    ]

upsert_members_of-Accepted :
    (c : Text) (project now : ℕ) (ms : List Member) (t : Serial MemberRow)
    → named_services ms ≡ true
    → Accepted (upsert_members_of c project now ms t)
unfolding upsert_members_of upsert_member named_services
upsert_members_of-Accepted c project now [] t h = accept (t, [])
upsert_members_of-Accepted c project now (m ∷ ms) t h =
    accept_then (upsert_member c project m now t) _ (one m.compose_service (ground arith))
      (λ (t', r).
        accept_then (upsert_members_of c project now ms t') _
          (upsert_members_of-Accepted c project now ms t' (ground arith))
          (λ (t'', ids). accept (t'', r.id ∷ ids)))
  where
    one :
        (o : Option Text)
        → is_some o ≡ true
        → Accepted (elim o [
          | none ↦ refused not_null_violation
          | some service ↦ wrote (
              upsert
                (has_member_key c m.docker_id)
                (new_member c project m service now)
                (observed_member project m service now)
                t)
        ])
    one none e = absurd cc
    one (some service) e = accept _

upsert_members-Accepted :
    (fits : Text → Bool) (c : Text) (now : ℕ) (xs : List Resource) (rs : List TargetRow)
    (t : Serial MemberRow)
    → all_complete fits xs ≡ true
    → Accepted (upsert_members c now (operational_among xs) rs t)
unfolding upsert_members operational_among all_complete
upsert_members-Accepted fits c now [] rs t h = accept (t, [])
upsert_members-Accepted fits c now (x ∷ xs) [] t h =
    elim (Bool-cases (is_operational x.classification)) [
      | inr issue ↦ rw issue (upsert_members-Accepted fits c now xs [] t (ground arith))
      | inl operational ↦ rw operational (accept (t, []))
    ]
upsert_members-Accepted fits c now (x ∷ xs) (r ∷ rs) t h =
    elim (Bool-cases (is_operational x.classification)) [
      | inr issue ↦ rw issue (upsert_members-Accepted fits c now xs (r ∷ rs) t (ground arith))
      | inl operational ↦ rw operational (
          accept_then (upsert_members_of c r.id now x.members t) _
            (upsert_members_of-Accepted c r.id now x.members t (ground arith))
            (λ (t', ids).
              accept_then (upsert_members c now (operational_among xs) rs t') _
                (upsert_members-Accepted fits c now xs rs t' (ground arith))
                (λ (t'', more). accept (t'', ids ++ more))))
    ]

upsert_issues-Accepted :
    (fits : Text → Bool) (c : Text) (now : ℕ) (xs : List Resource) (t : Serial IssueRow)
    → all_complete fits xs ≡ true
    → Accepted (upsert_issues fits c now (issues_among xs) t)
unfolding upsert_issues upsert_issue issues_among all_complete
upsert_issues-Accepted fits c now [] t h = accept (t, [])
upsert_issues-Accepted fits c now (x ∷ xs) t h =
    elim (Bool-cases (is_operational x.classification)) [
      | inl operational ↦ rw operational (upsert_issues-Accepted fits c now xs t (ground arith))
      | inr issue ↦ rw issue (
          accept_then (upsert_issue fits c x now t) _
            (let told : not x.diagnostic ≡ false = ground arith in
              let short : not (fits x.target) ≡ false = ground arith in rw (told, short) (accept _))
            (λ (t', r).
              accept_then (upsert_issues fits c now (issues_among xs) t') _
                (upsert_issues-Accepted fits c now xs t' (ground arith))
                (λ (t'', ids). accept (t'', r.id ∷ ids))))
    ]

-- On a known connection, the synchronisation of an inventory whose resources have all the fields
-- that the columns need is never refused: it commits, with a report.
pub synchronize_succeeds :
    (c : Text) (resources : List Resource) (now : ℕ) (db : Tables) (connection : Connection)
    → find_where (connection_with_id c) db.connections ≡ some connection
    → all_complete db.docker_id_fits resources ≡ true
    → (db' : Tables) × (report : Report) × (synchronize_inventory_rows c resources now db
        ≡ wrote (db', report))
unfolding synchronize_inventory_rows lock_connection
synchronize_succeeds c resources now db connection known h =
    let xs = operational_among resources in
    let a =
      accept_then (lock_connection c db.connections)
        (λ _. do
          (targets, synchronized) ← upsert_resources c now xs db.targets
          members ← upsert_members c now xs synchronized db.members
          issues ← upsert_issues db.docker_id_fits c now (issues_among resources) db.issues
          wrote (settle c resources db targets synchronized members issues))
        (record { value = connection; same = rw (known, lock_connection) refl })
        (λ _.
          accept_then (upsert_resources c now xs db.targets) _
            (upsert_resources-Accepted db.docker_id_fits c now resources db.targets h)
            (λ (targets, synchronized).
              accept_then (upsert_members c now xs synchronized db.members) _
                (upsert_members-Accepted db.docker_id_fits c now resources synchronized db.members
                  h)
                (λ members.
                  accept_then
                    (upsert_issues db.docker_id_fits c now (issues_among resources) db.issues) _
                    (upsert_issues-Accepted db.docker_id_fits c now resources db.issues h)
                    (λ issues.
                      accept (settle c resources db targets synchronized members issues))))) in
    (a.value.0, a.value.1, a.same)
