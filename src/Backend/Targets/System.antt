-- ===== src/Backend/Targets/System.antt =====
-- All transactions that write to `targets`, in any order: synchronisations of any connection, and
-- what repositories/worker_contracts_repository.py does.
use node_conductor.Base.{
  ℕ, Text, ◌≡◌, refl, ap, subst, inl, inr, Option, List, arith, Bool-cases, is_some,
}
use node_conductor.Table.{find_where}
use node_conductor.Agent.Schema.{ManagementPolicy, Resource}
use node_conductor.Backend.Written.{wrote, wrote_injective}
use node_conductor.Backend.Targets.{Connection, TargetRow, trigger_refuses}
use node_conductor.Backend.Targets.Sync.{
  Tables, Report, connection_with_id, synchronize_inventory_rows,
}
use node_conductor.Backend.Targets.Contracts.{
  ConnectionData, create_agent_connection_row, TargetData, create_target_row, may_be_set,
  with_policy, update_target_management_policy_row,
}
use node_conductor.Backend.Targets.Valid.{IsKeyed, update-IsKeyed, synchronize-IsKeyed}
use node_conductor.Backend.Targets.Created.{create_target-IsKeyed}
use node_conductor.Backend.Targets.Found.{IsFound}
use node_conductor.Backend.Targets.Protection.{
  IsForced, IsProtected, synchronize-IsProtected, set_policy-IsProtected, create_target-IsProtected,
}

pub data Step : Tables → Tables → Type 0 where
  synchronizes :
      (c : Text) (resources : List Resource) (now : ℕ) (db db' : Tables) (report : Report)
      → synchronize_inventory_rows c resources now db ≡ wrote (db', report)
      → Step db db'
  sets_policy :
      (j : ℕ) (m : ManagementPolicy) (db db' : Tables) (o : Option TargetRow)
      → update_target_management_policy_row j m db ≡ wrote (db', o)
      → Step db db'
  creates_target :
      (d : TargetData) (db db' : Tables) (r : TargetRow)
      → create_target_row d db ≡ wrote (db', r)
      → Step db db'
  creates_connection :
      (d : ConnectionData) (db db' : Tables) (r : Connection)
      → create_agent_connection_row d db ≡ wrote (db', r)
      → Step db db'

pub data Reach (db : Tables) : Tables → Type 0 where
  here : Reach db db
  next : {a b : Tables} → Reach db a → Step a b → Reach db b

create_connection-targets :
    (d : ConnectionData) (db db' : Tables) (r : Connection)
    → create_agent_connection_row d db ≡ wrote (db', r)
    → db.targets ≡ db'.targets
unfolding create_agent_connection_row
create_connection-targets d db db' r h =
    elim (Bool-cases (is_some (find_where (connection_with_id d.id) db.connections))) [
      | inl taken ↦ absurd (ground arith)
      | inr free ↦ ap (λ p. p.0.targets) (wrote_injective (rw free at h))
    ]

set_policy-IsKeyed :
    (j : ℕ) (m : ManagementPolicy) (db db' : Tables) (o : Option TargetRow)
    → update_target_management_policy_row j m db ≡ wrote (db', o)
    → IsKeyed db.targets.rows db.targets.next_id
    → IsKeyed db'.targets.rows db'.targets.next_id
unfolding update_target_management_policy_row
set_policy-IsKeyed j m db db' o h v =
    elim (Bool-cases (trigger_refuses (may_be_set j m) (with_policy m) db.targets.rows)) [
      | inl bad ↦ absurd (ground arith)
      | inr good ↦
          subst (λ (s : Tables × Option TargetRow). IsKeyed s.0.targets.rows s.0.targets.next_id)
            (wrote_injective (rw good at h))
            (update-IsKeyed (may_be_set j m) (with_policy m) db.targets.rows db.targets.next_id
              (λ i r. refl) (λ d c k t r. refl) v)
    ]

Step-IsKeyed :
    {a b : Tables}
    → Step a b
    → IsKeyed a.targets.rows a.targets.next_id
    → IsKeyed b.targets.rows b.targets.next_id
Step-IsKeyed (synchronizes c resources now db db' report h) v =
    synchronize-IsKeyed c resources now db db' report h v
Step-IsKeyed (sets_policy j m db db' o h) v = set_policy-IsKeyed j m db db' o h v
Step-IsKeyed (creates_target d db db' r h) v = create_target-IsKeyed d db db' r h v
Step-IsKeyed (creates_connection d db db' r h) v =
    subst (λ t. IsKeyed t.rows t.next_id) (create_connection-targets d db db' r h) v

-- Through every sequence of these transactions, no two targets have the same id, or the same
-- driver, connection, kind and name, and the sequence has given out every id in use.
pub Reach-IsKeyed :
    {a b : Tables}
    → Reach a b
    → IsKeyed a.targets.rows a.targets.next_id
    → IsKeyed b.targets.rows b.targets.next_id
Reach-IsKeyed here v = v
Reach-IsKeyed (next r s) v = Step-IsKeyed s (Reach-IsKeyed r v)

Step-IsProtected :
    (i : ℕ) (old : TargetRow) {a b : Tables} → Step a b → IsProtected i old a → IsProtected i old b
Step-IsProtected i old (synchronizes c resources now db db' report h) p =
    synchronize-IsProtected i old c resources now db db' report h p
Step-IsProtected i old (sets_policy j m db db' o h) p =
    set_policy-IsProtected i old j m db db' o h p
Step-IsProtected i old (creates_target d db db' r h) p =
    create_target-IsProtected i old d db db' r h p
Step-IsProtected i old (creates_connection d db db' r h) p =
    subst (λ t. IsFound (IsForced old) i t.rows) (create_connection-targets d db db' r h) p

-- A target under a forced protection keeps its row, the resource that it stands for, the forced
-- protection and the policy `protected` through every sequence of these transactions, whatever an
-- inventory says of it and whatever policy is asked for.
pub Reach-IsProtected :
    (i : ℕ) (old : TargetRow) {a b : Tables} → Reach a b → IsProtected i old a → IsProtected i old b
Reach-IsProtected i old here p = p
Reach-IsProtected i old (next r s) p = Step-IsProtected i old s (Reach-IsProtected i old r p)
