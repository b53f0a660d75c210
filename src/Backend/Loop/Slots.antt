-- ===== src/Backend/Loop/Slots.antt =====
-- The slots of the worker's loop (services/worker_loop.py) among the transactions of all processes.
use node_conductor.Base.{
  ℕ, zero, suc, ◌+◌, ◌≤◌, ◌<◌, ◌≡◌, ◌≢◌, refl, sym, ap, ◌∙◌, inl, inr, false, List, [], ◌∷◌, arith,
  ltb, length, length-append, Bool-cases, Option-cases,
}
use node_conductor.Table.{count_where}
use node_conductor.Table.Ordered.{rows_where}
use node_conductor.Backend.Schema.{Job, Db}
use node_conductor.Backend.Jobs.{running_job}
use node_conductor.Backend.Jobs.Valid.{IsValid, IsFresh}
use node_conductor.Backend.Jobs.System.{Reach, claim_next, Reach-IsValid, next, Reach-capacity}
use node_conductor.Backend.Loop.{
  Task, Controller, Round, is_active_task, discard_finished_tasks, add_task, FillEnd, stopped, full,
  idle, out_of_fuel, claim_in, claim_within, fill_slots, fill_available_slots,
}

-- What one round does: it ends the loop, or it claims a job and the loop goes on.
data RoundOutcome (rounds : ℕ → Round) (k : ℕ) (c : Controller) (db : Db) : Type 0 where
  ends :
      (e : FillEnd)
      → e ≢ out_of_fuel
      → ((fuel : ℕ) → fill_slots rounds (suc fuel) k c db ≡ (c, db, e))
      → RoundOutcome rounds k c db
  finds_none :
      length c.active_tasks < c.max_concurrency
      → ((fuel : ℕ) → fill_slots rounds (suc fuel) k c db ≡ (c, (claim_in c (rounds k) db).0, idle))
      → RoundOutcome rounds k c db
  claims :
      (job : Job)
      → length c.active_tasks < c.max_concurrency
      → ((fuel : ℕ)
          → fill_slots rounds (suc fuel) k c db
            ≡ fill_slots rounds fuel (k + 1) (add_task job c) (claim_in c (rounds k) db).0)
      → RoundOutcome rounds k c db

round_outcome : (rounds : ℕ → Round) (k : ℕ) (c : Controller) (db : Db) → RoundOutcome rounds k c db
unfolding fill_slots
round_outcome rounds k c db = elim (Bool-cases (rounds k).stop) [
  | inl e ↦ ends stopped (λ h. cc) (λ fuel. rw (e, fill_slots) refl)
  | inr e ↦ elim (Bool-cases (ltb (length c.active_tasks) c.max_concurrency)) [
    | inr f ↦ ends full (λ h. cc) (λ fuel. rw (e, fill_slots) (rw f refl))
    | inl f ↦ elim (Option-cases (claim_in c (rounds k) db).1) [
      | inl g ↦ finds_none (ground arith) (λ fuel. rw (e, fill_slots) (rw f (rw g refl)))
      | inr (job, g) ↦ claims job (ground arith) (λ fuel. rw (e, fill_slots) (rw f (rw g refl)))
    ]
  ]
]

added_task :
    (job : Job) (c : Controller) → length (add_task job c).active_tasks ≡ length c.active_tasks + 1
added_task job c = length-append c.active_tasks (record { job = job; done = false } ∷ [])

module _ (rounds : ℕ → Round) where
  -- With one round more than there are free slots the loop ends, and more fuel changes nothing.
  fill_slots-fuel :
      (fuel extra k : ℕ) (c : Controller) (db : Db)
      → c.max_concurrency ≤ length c.active_tasks + fuel
      → (fill_slots rounds (suc (fuel + extra)) k c db ≡ fill_slots rounds (suc fuel) k c db)
        × ((fill_slots rounds (suc fuel) k c db).2 ≢ out_of_fuel)
  fill_slots-fuel zero extra k c db h = elim (round_outcome rounds k c db) [
    | ends e a b ↦ (b (0 + extra) ∙ sym (b 0), λ f. a (sym (ap (λ p. p.2) (b 0)) ∙ f))
    | finds_none room b ↦ absurd (omega arith)
    | claims job room b ↦ absurd (omega arith)
  ]
  fill_slots-fuel (suc n) extra k c db h = elim (round_outcome rounds k c db) [
    | ends e a b ↦
        (b (suc n + extra) ∙ sym (b (suc n)), λ f. a (sym (ap (λ p. p.2) (b (suc n))) ∙ f))
    | finds_none room b ↦ (
      b (suc n + extra) ∙ sym (b (suc n)),
      λ f. absurd (ground (arith, sym (ap (λ p. p.2) (b (suc n))) ∙ f)),
    )
    | claims job room b ↦
        let (same, ended) =
          fill_slots-fuel n extra (k + 1) (add_task job c) (claim_in c (rounds k) db).0
            (omega (arith, added_task job c)) in
        let fewer : suc n + extra ≡ suc (n + extra) = omega arith in
        (
          b (suc n + extra)
              ∙ ap (λ m. fill_slots rounds m (k + 1) (add_task job c) (claim_in c (rounds k) db).0)
                  fewer
              ∙ same
              ∙ sym (b (suc n)),
          λ f. ended (sym (ap (λ p. p.2) (b (suc n))) ∙ f),
        )
  ]

  -- The loop over the slots ends by itself, for a stop, for want of a slot or for want of a job: it
  -- never uses up its fuel, and any more fuel gives the same end.
  pub fill_ends :
      (extra : ℕ) (c : Controller) (db : Db)
      → (fill_slots rounds (suc (c.max_concurrency + extra)) 0 (discard_finished_tasks c) db
          ≡ fill_available_slots rounds c db)
        × ((fill_available_slots rounds c db).2 ≢ out_of_fuel)
  unfolding fill_available_slots discard_finished_tasks
  fill_ends extra c db =
      fill_slots-fuel c.max_concurrency extra 0 (discard_finished_tasks c) db (omega arith)

  -- What the rounds must respect: other transactions are steps of the system with the automatic
  -- claim under the same limits, and the UUIDs that are drawn are fresh.
  abbrev pub IsFair : ℕ → ℕ → ℕ → ℕ → Db → Type 0
  IsFair limit per zero k db = Unit
  IsFair limit per (suc fuel) k db =
      Reach limit per db ((rounds k).meanwhile db)
      × IsFresh (rounds k).uuid ((rounds k).meanwhile db)
      × IsFair limit per fuel (k + 1) (claim_within limit per (rounds k) db).0

  -- What the loop keeps: the table valid, and the running jobs and the tasks within the limit.
  pub record IsWithin (c : Controller) (db : Db) : Type 0 where
    pub valid : IsValid db
    pub running : count_where running_job db.jobs ≤ c.max_concurrency
    pub tasks : length c.active_tasks ≤ c.max_concurrency

  claimed-IsWithin :
      (k : ℕ) (c : Controller) (db : Db)
      → Reach c.max_concurrency c.max_concurrency_per_connection db ((rounds k).meanwhile db)
      → IsFresh (rounds k).uuid ((rounds k).meanwhile db)
      → IsWithin c db
      → IsWithin c (claim_in c (rounds k) db).0
  claimed-IsWithin k c db r f w =
      let r' : Reach c.max_concurrency c.max_concurrency_per_connection db
          (claim_in c (rounds k) db).0 =
        next r (claim_next _ (rounds k).now (rounds k).uuid (rounds k).locked f) in
      record {
        valid = Reach-IsValid _ _ r' w.valid;
        running = Reach-capacity _ _ r' w.valid w.running;
        tasks = w.tasks;
      }

  fill_slots-IsWithin :
      (fuel k : ℕ) (c : Controller) (db : Db)
      → IsFair c.max_concurrency c.max_concurrency_per_connection fuel k db
      → IsWithin c db
      → IsWithin (fill_slots rounds fuel k c db).0 (fill_slots rounds fuel k c db).1
  unfolding fill_slots
  fill_slots-IsWithin zero k c db f w = w
  fill_slots-IsWithin (suc fuel) k c db f w = elim (round_outcome rounds k c db) [
    | ends e a b ↦ rw (b fuel) w
    | finds_none room b ↦ rw (b fuel) (claimed-IsWithin k c db f.0 f.1 w)
    | claims job room b ↦
        let w' = claimed-IsWithin k c db f.0 f.1 w in
        rw (b fuel) (
          fill_slots-IsWithin fuel (k + 1) (add_task job c) (claim_in c (rounds k) db).0 f.2
            (record {
              valid = w'.valid;
              running = w'.running;
              tasks = omega (arith, added_task job c);
            }))
  ]

  rows_where-length : (ts : List Task) → length (rows_where is_active_task ts) ≤ length ts
  unfolding rows_where
  rows_where-length [] = omega arith
  rows_where-length (t ∷ ts) = ground (arith, rows_where-length ts)

  -- Filling the slots keeps the table valid, the running jobs of all processes within the limit,
  -- and the loop's own tasks within the same limit, whatever transactions of the job repository come
  -- in between, as long as these claim jobs by the automatic claim with the same limits only (a
  -- manual claim, which has no limit, is not among them) and the UUIDs that are drawn are fresh.
  pub fill_keeps_limits :
      (c : Controller) (db : Db)
      → IsFair c.max_concurrency c.max_concurrency_per_connection (suc c.max_concurrency) 0 db
      → IsWithin c db
      → IsWithin (fill_available_slots rounds c db).0 (fill_available_slots rounds c db).1
  unfolding fill_available_slots discard_finished_tasks
  fill_keeps_limits c db f w =
      fill_slots-IsWithin (suc c.max_concurrency) 0 (discard_finished_tasks c) db f (record {
        valid = w.valid;
        running = w.running;
        tasks = omega (arith, rows_where-length c.active_tasks, w.tasks);
      })
