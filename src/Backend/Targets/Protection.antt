-- ===== src/Backend/Targets/Protection.antt =====
-- The forced protection of a target, and the targets of other connections.
use node_conductor.Base.{
  ℕ, Text, ◌≡◌, ◌≢◌, refl, sym, ◌∙◌, inl, inr, Bool, true, false, Option, some, List, arith, ◌==◌,
  Bool-cases, ==_iff, subst, ap,
}
use node_conductor.Table.{find_where}
use node_conductor.Agent.Schema.{TargetKind, ManagementPolicy, protected, Resource}
use node_conductor.Agent.Inventory.Protected.{same_policy→eq}
use node_conductor.Backend.Written.{wrote, wrote_injective}
use node_conductor.Backend.Targets.{
  TargetRow, target_with_id, docker, has_key, observed_target, trigger_refuses,
}
use node_conductor.Backend.Targets.Sync.{Tables, Report, synchronize_inventory_rows}
use node_conductor.Backend.Targets.Contracts.{
  TargetData, created_target, create_target_row, may_be_set, with_policy,
  update_target_management_policy_row,
}
use node_conductor.Backend.Targets.Created.{create_target-rows}
use node_conductor.Backend.Targets.Found.{
  IsFound, update-IsFound, append-IsFound, synchronize-IsFound,
}

-- A row that stands for the resource of `old`, under a forced protection.
pub record IsForced (old r : TargetRow) : Type 0 where
  pub forced : r.protection_forced ≡ true
  pub policy : r.management_policy ≡ protected
  pub same_driver : r.driver ≡ old.driver
  pub same_connection : r.connection_id ≡ old.connection_id
  pub same_target_kind : r.target_kind ≡ old.target_kind
  pub same_target : r.target ≡ old.target

-- Such a row with this id is in the table.
abbrev pub IsProtected : ℕ → TargetRow → Tables → Type 0
IsProtected i old db = IsFound (IsForced old) i db.targets.rows

module _ (i : ℕ) (old : TargetRow) where
  pub synchronize-IsProtected :
      (c : Text) (resources : List Resource) (now : ℕ) (db db' : Tables) (report : Report)
      → synchronize_inventory_rows c resources now db ≡ wrote (db', report)
      → IsProtected i old db
      → IsProtected i old db'
  synchronize-IsProtected c resources now db db' report h p =
      synchronize-IsFound (IsForced old) i c now resources db db' report observed
        (λ members r _ q. absent r false false q) (λ ids r _ q. absent r r.is_pilotable false q) h p
    where
      observed :
          (k : TargetKind) (m : ManagementPolicy) (x : Resource) (r : TargetRow)
          → has_key docker c k x.target r ≡ true
          → IsForced old r
          → IsForced old (observed_target now m x r)
      observed k m x r _ q = record {
        forced = rw q.forced refl;
        policy = rw q.forced refl;
        same_driver = q.same_driver;
        same_connection = q.same_connection;
        same_target_kind = q.same_target_kind;
        same_target = q.same_target;
      }

      absent :
          (r : TargetRow) (p p' : Bool)
          → IsForced old r
          → IsForced old (record r { is_pilotable = p; is_present = p' })
      absent r p p' q = record {
        forced = q.forced;
        policy = q.policy;
        same_driver = q.same_driver;
        same_connection = q.same_connection;
        same_target_kind = q.same_target_kind;
        same_target = q.same_target;
      }

  pub set_policy-IsProtected :
      (j : ℕ) (m : ManagementPolicy) (db db' : Tables) (o : Option TargetRow)
      → update_target_management_policy_row j m db ≡ wrote (db', o)
      → IsProtected i old db
      → IsProtected i old db'
  unfolding update_target_management_policy_row
  set_policy-IsProtected j m db db' o h p =
      elim (Bool-cases (trigger_refuses (may_be_set j m) (with_policy m) db.targets.rows)) [
        | inl bad ↦ absurd (ground arith)
        | inr good ↦
            subst (λ (s : Tables × Option TargetRow). IsProtected i old s.0)
              (wrote_injective (rw good at h))
              (update-IsFound (IsForced old) i (may_be_set j m) (with_policy m) db.targets.rows
                (λ r. refl) set p)
      ]
    where
      set :
          (r : TargetRow)
          → may_be_set j m r ≡ true
          → IsForced old r
          → IsForced old (with_policy m r)
      set r e q = record {
        forced = q.forced;
        policy = same_policy→eq m protected (ground (arith, q.forced));
        same_driver = q.same_driver;
        same_connection = q.same_connection;
        same_target_kind = q.same_target_kind;
        same_target = q.same_target;
      }

  pub create_target-IsProtected :
      (d : TargetData) (db db' : Tables) (r : TargetRow)
      → create_target_row d db ≡ wrote (db', r)
      → IsProtected i old db
      → IsProtected i old db'
  create_target-IsProtected d db db' r h p =
      subst (λ rows. IsFound (IsForced old) i rows) (sym (create_target-rows d db db' r h))
        (append-IsFound (IsForced old) i db.targets.rows (created_target d db.targets.next_id) p)

-- A synchronisation leaves the targets of every other connection as they are.
pub synchronize-others :
    (c : Text) (resources : List Resource) (now : ℕ) (db db' : Tables) (report : Report) (i : ℕ)
    (r : TargetRow)
    → synchronize_inventory_rows c resources now db ≡ wrote (db', report)
    → find_where (target_with_id i) db.targets.rows ≡ some r
    → r.connection_id ≢ c
    → find_where (target_with_id i) db'.targets.rows ≡ some r
synchronize-others c resources now db db' report i r h e other =
    let p =
      synchronize-IsFound (λ x. x ≡ r) i c now resources db db' report
        (λ k m x y k' same. absurd (other (foreign y same (ground arith))))
        (λ members y l same. absurd (other (foreign y same (ground arith))))
        (λ ids y l same. absurd (other (foreign y same (ground arith)))) h
        (record { row = r; at = e; holds = refl }) in
    p.at ∙ ap some p.holds
  where
    foreign : (y : TargetRow) → y ≡ r → (y.connection_id == c) ≡ true → r.connection_id ≡ c
    foreign y same l =
        sym (ap (λ (x : TargetRow). x.connection_id) same) ∙ (==_iff y.connection_id c).0 l
