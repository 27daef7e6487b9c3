-- ===== src/App/Jobs/History.antt =====
-- The histories of the job manager, and what holds after each.
use fixrepro.Base.{
  ◌-◌, ◌≡◌, ◌↔◌, refl, sym, ap, ◌∙◌, ◌⊎◌, inl, inr, String, Bool, true, false, subst, none, some,
  length, arith,
}
use fixrepro.App.Jobs.{
  JobRecord, running, Attempt, presented, bundle_error, verification_error, presentation_error,
  os_error, value_error, other_exception, already_running_error, is_finished, get_record,
  set_record, finished_ids, trim, max_finished_jobs, VerificationJobManager, new_manager, start_job,
  close_job, run_job, finish_failed, start_failed, shutdown, completed_record, failed_record,
}
use fixrepro.App.Jobs.Invariant.{HasTable, IsManaged, start-IsManaged, start_down}
use fixrepro.App.Jobs.Table.{
  Table, open_count, open_weight, drop, set_old, trim_newest, drop-open, length-drop,
}

module _ {R : Type 0} where
  -- One operation: a request to start a job, whatever it is answered; the end of the worker's run; or
  -- the start of the shutdown.
  pub data Step (m : VerificationJobManager R) : VerificationJobManager R → Type 0 where
    asked :
        (job_id now : String) (thread_starts : Bool)
        → Step m (start_job job_id now thread_starts m).1
    ended :
        (job_id now : String) (attempt : Attempt R) {m' : VerificationJobManager R}
        → m.worker ≡ some job_id
        → run_job job_id now attempt m ≡ some m'
        → Step m m'
    stopped : Step m (shutdown m)

  pub data Reachable : VerificationJobManager R → Type 0 where
    fresh : Reachable (new_manager R)
    next : {m m' : VerificationJobManager R} → Reachable m → Step m m' → Reachable m'

  -- Finishing the only open record leaves none.
  finish_only :
      (key : String) (old new : JobRecord R) (jobs : Table R)
      → is_finished new ≡ true
      → open_count jobs ≡ 1
      → get_record key jobs ≡ some old
      → old.status ≡ running
      → open_count (set_record key new jobs) ≡ 0
  finish_only key old new jobs finished one found runs =
      let open_old : open_weight old ≡ 1 = rw runs refl in
      let closed_new : open_weight new ≡ 0 = rw finished refl in
      omega (arith, one, (set_old key new old jobs found).0, open_old, closed_new)

  closed_table :
      (job_id : String) (new : JobRecord R) (jobs : Table R)
      → is_finished new ≡ true
      → HasTable (some job_id) jobs
      → HasTable none
          (trim (finished_ids none (set_record job_id new jobs)) (set_record job_id new jobs))
  closed_table job_id new jobs finished (one, bound, r', found, runs) =
      let all_closed : open_count (set_record job_id new jobs) ≡ 0 =
        finish_only job_id r' new jobs finished one found runs in
      let kept = trim_newest (set_record job_id new jobs) all_closed in
      let n = length (set_record job_id new jobs) - max_finished_jobs in
      (
        ap open_count kept ∙ drop-open n (set_record job_id new jobs) all_closed,
        omega (
          arith,
          ap length kept,
          length-drop n (set_record job_id new jobs),
          (set_old job_id new r' jobs found).1,
          bound,
        ),
      )

  -- The end of a job: the update is one that finishes the record.
  close-IsManaged :
      (job_id : String) (update : JobRecord R → JobRecord R) (m : VerificationJobManager R)
      → ((r : JobRecord R) → is_finished (update r) ≡ true)
      → IsManaged m
      → m.worker ≡ some job_id
      → (r : JobRecord R) × (m' : VerificationJobManager R) × (get_record job_id m.jobs ≡ some r)
        × (close_job job_id update m ≡ some m')
        × (m'.active_job_id ≡ none)
        × (m'.jobs
            ≡ drop
                (length (set_record job_id (update r) m.jobs) - max_finished_jobs)
                (set_record job_id (update r) m.jobs))
        × IsManaged m'
  unfolding close_job
  close-IsManaged job_id update m finishes managed working =
      let busy : m.active_job_id ≡ some job_id = sym managed.same_worker ∙ working in
      let (one, bound, r, found, runs) : HasTable (some job_id) m.jobs =
        subst (λ a. HasTable a m.jobs) busy managed.table in
      let jobs : Table R = set_record job_id (update r) m.jobs in
      let m' : VerificationJobManager R = record m {
        jobs = trim (finished_ids none jobs) jobs;
        active_job_id = none;
        worker = none;
      } in
      let all_closed : open_count jobs ≡ 0 =
        finish_only job_id r (update r) m.jobs (finishes r) one found runs in
      let closes : close_job job_id update m ≡ some m' = rw found refl in
      (
        r,
        m',
        found,
        closes,
        refl,
        trim_newest jobs all_closed,
        record {
          same_worker = refl;
          table = closed_table job_id (update r) m.jobs (finishes r) (one, bound, r, found, runs);
        },
      )

  -- The record that the end of a run leaves.
  abbrev pub record_after : String → Attempt R → JobRecord R → JobRecord R
  record_after now (presented p) r = completed_record now p r
  record_after now other_exception r =
      failed_record now "INTERNAL_ERROR"
        "Verification failed because of an internal operational error." r
  record_after now _ r =
      failed_record now "VERIFICATION_START_FAILED"
        "Deterministic verification could not be completed." r

  run_job-close :
      (job_id now : String) (attempt : Attempt R) (m : VerificationJobManager R)
      → run_job job_id now attempt m ≡ close_job job_id (record_after now attempt) m
  unfolding run_job finish_failed start_failed
  run_job-close job_id now (presented p) m = refl
  run_job-close job_id now bundle_error m = refl
  run_job-close job_id now verification_error m = refl
  run_job-close job_id now presentation_error m = refl
  run_job-close job_id now os_error m = refl
  run_job-close job_id now value_error m = refl
  run_job-close job_id now other_exception m = refl

  record_after_finished :
      (now : String) (attempt : Attempt R) (r : JobRecord R)
      → is_finished (record_after now attempt r) ≡ true
  record_after_finished now (presented p) r = refl
  record_after_finished now bundle_error r = refl
  record_after_finished now verification_error r = refl
  record_after_finished now presentation_error r = refl
  record_after_finished now os_error r = refl
  record_after_finished now value_error r = refl
  record_after_finished now other_exception r = refl

  some-injective : {a b : VerificationJobManager R} → some a ≡ some b → a ≡ b
  some-injective h = cc

  end_of_run :
      (job_id now : String) (attempt : Attempt R) (m : VerificationJobManager R)
      → IsManaged m
      → m.worker ≡ some job_id
      → (r : JobRecord R) × (m' : VerificationJobManager R) × (get_record job_id m.jobs ≡ some r)
        × (run_job job_id now attempt m ≡ some m')
        × (m'.active_job_id ≡ none)
        × (m'.jobs
            ≡ drop
                (length (set_record job_id (record_after now attempt r) m.jobs) - max_finished_jobs)
                (set_record job_id (record_after now attempt r) m.jobs))
        × IsManaged m'
  end_of_run job_id now attempt m managed working =
      let (r, m', found, closes, idle, kept, managed') =
        close-IsManaged job_id (record_after now attempt) m (record_after_finished now attempt)
          managed working in
      (r, m', found, run_job-close job_id now attempt m ∙ closes, idle, kept, managed')

  stopped-IsManaged : (m : VerificationJobManager R) → IsManaged m → IsManaged (shutdown m)
  unfolding shutdown
  stopped-IsManaged m managed = record { same_worker = managed.same_worker; table = managed.table }

  Step-IsManaged : (m m' : VerificationJobManager R) → Step m m' → IsManaged m → IsManaged m'
  Step-IsManaged m m' (asked job_id now thread_starts) managed =
      start-IsManaged job_id now thread_starts m managed
  Step-IsManaged m m' (ended job_id now attempt working ends) managed =
      let (r, m₁, found, ends₁, idle, kept, managed₁) =
        end_of_run job_id now attempt m managed working in
      subst IsManaged (some-injective (sym ends₁ ∙ ends)) managed₁
  Step-IsManaged m m' stopped managed = stopped-IsManaged m managed

  -- In every history of requests, ends of runs and shutdowns: the worker runs exactly the active job;
  -- that job's record is in the table, running, and the only one that has not finished; and at most
  -- ten finished jobs are kept besides.
  pub Reachable-IsManaged : (m : VerificationJobManager R) → Reachable m → IsManaged m
  unfolding new_manager
  Reachable-IsManaged m fresh = record { same_worker = refl; table = (refl, omega arith) }
  Reachable-IsManaged m (next before step) = Step-IsManaged _ m step (Reachable-IsManaged _ before)

  -- Whatever the run of a started job gives, it is recorded: the job is found, no job is active any
  -- more, and the table is the one with the job's result or error, cut to its ten newest entries.
  pub run_recorded :
      (m : VerificationJobManager R) (job_id now : String) (attempt : Attempt R)
      → Reachable m
      → m.worker ≡ some job_id
      → (r : JobRecord R) × (m' : VerificationJobManager R) × (get_record job_id m.jobs ≡ some r)
        × (run_job job_id now attempt m ≡ some m')
        × (m'.active_job_id ≡ none)
        × (m'.jobs
            ≡ drop
                (length (set_record job_id (record_after now attempt r) m.jobs) - max_finished_jobs)
                (set_record job_id (record_after now attempt r) m.jobs))
  run_recorded m job_id now attempt reached working =
      let (r, m', found, ends, idle, kept, managed) =
        end_of_run job_id now attempt m (Reachable-IsManaged m reached) working in
      (r, m', found, ends, idle, kept)

  -- A job that was started blocks the next request until its run has ended: the second one is refused
  -- as already running and changes nothing, whatever identifier and time it draws.
  pub single_worker :
      (m : VerificationJobManager R) (job_id now other later : String) (thread_starts : Bool)
      → (start_job job_id now true m).0 ≡ inr job_id
      → start_job other later thread_starts (start_job job_id now true m).1
        ≡ (inl already_running_error, (start_job job_id now true m).1)
  unfolding start_job
  single_worker m job_id now other later thread_starts granted = ground arith

  close_keeps :
      (job_id : String) (update : JobRecord R → JobRecord R) (m m' : VerificationJobManager R)
      → close_job job_id update m ≡ some m'
      → (m'.shutting_down ≡ m.shutting_down) × (m'.active_job_id ≡ none)
  unfolding close_job
  close_keeps job_id update m m' closes = ground arith

  -- A request is granted exactly if the manager is not shutting down and no job is active, given that
  -- the thread starts; otherwise, whether a thread would start or not, it changes nothing.
  pub start_granted_iff :
      (job_id now : String) (thread_starts : Bool) (m : VerificationJobManager R)
      → (((start_job job_id now true m).0 ≡ inr job_id)
          ↔ ((m.shutting_down ≡ false) × (m.active_job_id ≡ none)))
        × (¬ ((m.shutting_down ≡ false) × (m.active_job_id ≡ none))
            → (start_job job_id now thread_starts m).1 ≡ m)
  unfolding start_job
  start_granted_iff job_id now thread_starts m = (ground arith, λ h. ground arith)

  -- Once the shutdown has begun, no operation ends it or makes another job active.
  pub shutdown_final :
      (m m' : VerificationJobManager R)
      → Step m m'
      → m.shutting_down ≡ true
      → (m'.shutting_down ≡ true)
        × ((m'.active_job_id ≡ none) ⊎ (m'.active_job_id ≡ m.active_job_id))
  unfolding shutdown
  shutdown_final m m' (asked job_id now thread_starts) down =
      subst
        (λ x.
          (x.1.shutting_down ≡ true)
          × ((x.1.active_job_id ≡ none) ⊎ (x.1.active_job_id ≡ m.active_job_id)))
        (sym (start_down job_id now thread_starts m down)) (down, inr refl)
  shutdown_final m m' (ended job_id now attempt working ends) down =
      let (kept, idle) =
        close_keeps job_id (record_after now attempt) m m'
          (sym (run_job-close job_id now attempt m) ∙ ends) in
      (kept ∙ down, inl idle)
  shutdown_final m m' stopped down = (refl, inr refl)
