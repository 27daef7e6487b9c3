-- ===== src/Tests/Jobs.antt =====
-- Witnesses of the job manager.
use fixrepro.Base.{ℕ, ◌-◌, ◌≡◌, refl, String, true, none, some, [], ◌∷◌, length}
use fixrepro.App.Jobs.{
  JobRecord, os_error, VerificationJobManager, new_manager, new_job, start_job, run_job, shutdown,
  get_record, set_record, finished_ids, trim, max_finished_jobs, failed_record,
}
use fixrepro.App.Jobs.Table.{drop, trim_newest, Table}
use fixrepro.App.Jobs.Invariant.{IsManaged}
use fixrepro.App.Jobs.History.{
  asked, stopped, Reachable, fresh, next, record_after, Reachable-IsManaged, run_recorded,
}

abbrev first : VerificationJobManager ℕ
first = (start_job "JOB-1" "t" true (new_manager ℕ)).1

first_reached : Reachable first
first_reached = next fresh (asked "JOB-1" "t" true)

first_working : first.worker ≡ some "JOB-1"
unfolding start_job new_manager
first_working = refl

Reachable-IsManaged_example : IsManaged (shutdown first)
Reachable-IsManaged_example = Reachable-IsManaged (shutdown first) (next first_reached stopped)

run_recorded_example :
    (r : JobRecord ℕ) × (m' : VerificationJobManager ℕ) × (get_record "JOB-1" first.jobs ≡ some r)
    × (run_job "JOB-1" "u" os_error first ≡ some m')
    × (m'.active_job_id ≡ none)
    × (m'.jobs
        ≡ drop
            (length (set_record "JOB-1" (record_after "u" os_error r) first.jobs)
              - max_finished_jobs)
            (set_record "JOB-1" (record_after "u" os_error r) first.jobs))
run_recorded_example = run_recorded first "JOB-1" "u" os_error first_reached first_working

abbrev closed_job : String → JobRecord ℕ
closed_job id = failed_record "u" "c" "m" (new_job id "t")

abbrev table : Table ℕ
table = ("JOB-1", closed_job "JOB-1") ∷ ("JOB-2", closed_job "JOB-2") ∷ []

trim_newest_example :
    trim (finished_ids none table) table ≡ drop (length table - max_finished_jobs) table
trim_newest_example = trim_newest table refl
