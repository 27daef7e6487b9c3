-- ===== src/App/Jobs/Invariant.antt =====
-- What holds of a job manager between its operations, and that a request keeps it.
use fixrepro.Base.{
  suc, ◌≤◌, ◌≡◌, refl, sym, inl, inr, String, Bool, true, false, Bool-cases, subst, Option, none,
  some, length, arith, Option-cases,
}
use fixrepro.App.Jobs.{
  JobRecord, running, shutting_down_error, already_running_error, thread_error, is_finished,
  get_record, set_record, pop_record, max_finished_jobs, VerificationJobManager, new_job, start_job,
}
use fixrepro.App.Jobs.Table.{Table, open_count, get-set, set_new, set_old, pop_old}

module _ {R : Type 0} where
  -- What the table of a manager must look like: without an active job, every record is finished and
  -- there are at most ten; with one, its record is the only open one, it runs, and the worker is on it.
  abbrev pub HasTable : Option String → Table R → Type 0
  HasTable none jobs = (open_count jobs ≡ 0) × (length jobs ≤ max_finished_jobs)
  HasTable (some job_id) jobs =
      (open_count jobs ≡ 1)
      × (length jobs ≤ suc max_finished_jobs)
      × (r : JobRecord R) × (get_record job_id jobs ≡ some r)
      × (r.status ≡ running)

  pub record IsManaged (m : VerificationJobManager R) : Type 0 where
    pub same_worker : m.worker ≡ m.active_job_id
    pub table : HasTable m.active_job_id m.jobs

  -- Setting an open record in a table of finished ones leaves one open record.
  opened_table :
      (key : String) (new : JobRecord R) (jobs : Table R)
      → is_finished new ≡ false
      → open_count jobs ≡ 0
      → (open_count (set_record key new jobs) ≡ 1)
        × (length (set_record key new jobs) ≤ suc (length jobs))
  opened_table key new jobs opened closed = elim (Option-cases (get_record key jobs)) [
    | inl absent ↦ ground (arith, set_new key new jobs absent)
    | inr (old, found) ↦ ground (arith, set_old key new old jobs found, pop_old key old jobs found)
  ]

  started_table :
      (job_id now : String) (jobs : Table R)
      → HasTable none jobs
      → HasTable (some job_id) (set_record job_id (new_job job_id now) jobs)
  started_table job_id now jobs (closed, bound) =
      let (one, longer) = opened_table job_id (new_job job_id now) jobs refl closed in
      (
        one,
        omega (arith, longer, bound),
        new_job job_id now,
        get-set job_id (new_job job_id now) jobs,
        refl,
      )

  withdrawn_table :
      (job_id now : String) (jobs : Table R)
      → HasTable none jobs
      → HasTable none (pop_record job_id (set_record job_id (new_job job_id now) jobs))
  withdrawn_table job_id now jobs (closed, bound) =
      let new : JobRecord R = new_job job_id now in
      let (one, longer) = opened_table job_id new jobs refl closed in
      let (left, shorter) =
        pop_old job_id new (set_record job_id new jobs) (get-set job_id new jobs) in
      (omega (arith, one, left), omega (arith, longer, shorter, bound))

  -- The answer of `start_job` on each branch.
  pub start_down :
      (job_id now : String) (thread_starts : Bool) (m : VerificationJobManager R)
      → m.shutting_down ≡ true
      → start_job job_id now thread_starts m ≡ (inl shutting_down_error, m)
  unfolding start_job
  start_down job_id now thread_starts m down = ground (arith, down)

  pub start_busy :
      (job_id now : String) (thread_starts : Bool) (m : VerificationJobManager R) (active : String)
      → m.shutting_down ≡ false
      → m.active_job_id ≡ some active
      → start_job job_id now thread_starts m ≡ (inl already_running_error, m)
  unfolding start_job
  start_busy job_id now thread_starts m active up busy = ground (arith, up, busy)

  abbrev pub started : String → String → VerificationJobManager R → VerificationJobManager R
  started job_id now m = record m {
    jobs = set_record job_id (new_job job_id now) m.jobs;
    active_job_id = some job_id;
    worker = some job_id;
  }

  start_idle :
      (job_id now : String) (m : VerificationJobManager R)
      → m.shutting_down ≡ false
      → m.active_job_id ≡ none
      → start_job job_id now true m ≡ (inr job_id, started job_id now m)
  unfolding start_job
  start_idle job_id now m up idle = ground (arith, up, idle)

  abbrev withdrawn : String → String → VerificationJobManager R → VerificationJobManager R
  withdrawn job_id now m = record m {
    jobs = pop_record job_id (set_record job_id (new_job job_id now) m.jobs);
    active_job_id = none;
    worker = none;
  }

  start_thread :
      (job_id now : String) (m : VerificationJobManager R)
      → m.shutting_down ≡ false
      → m.active_job_id ≡ none
      → start_job job_id now false m ≡ (inl thread_error, withdrawn job_id now m)
  unfolding start_job
  start_thread job_id now m up idle = ground (arith, up, idle)

  idle-IsManaged :
      (job_id now : String) (thread_starts : Bool) (m : VerificationJobManager R)
      → m.shutting_down ≡ false
      → m.active_job_id ≡ none
      → HasTable none m.jobs
      → IsManaged (start_job job_id now thread_starts m).1
  idle-IsManaged job_id now true m up idle closed =
      subst (λ x. IsManaged x.1) (sym (start_idle job_id now m up idle))
        (record { same_worker = refl; table = started_table job_id now m.jobs closed })
  idle-IsManaged job_id now false m up idle closed =
      subst (λ x. IsManaged x.1) (sym (start_thread job_id now m up idle))
        (record { same_worker = refl; table = withdrawn_table job_id now m.jobs closed })

  pub start-IsManaged :
      (job_id now : String) (thread_starts : Bool) (m : VerificationJobManager R)
      → IsManaged m
      → IsManaged (start_job job_id now thread_starts m).1
  start-IsManaged job_id now thread_starts m managed = elim (Bool-cases m.shutting_down) [
    | inl down ↦
        subst (λ x. IsManaged x.1) (sym (start_down job_id now thread_starts m down)) managed
    | inr up ↦ elim (Option-cases m.active_job_id) [
      | inr (active, busy) ↦
          subst (λ x. IsManaged x.1) (sym (start_busy job_id now thread_starts m active up busy))
            managed
      | inl idle ↦
          idle-IsManaged job_id now thread_starts m up idle
            (subst (λ a. HasTable a m.jobs) idle managed.table)
    ]
  ]
