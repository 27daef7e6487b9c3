-- ===== src/App/Jobs.antt =====
-- app/jobs.py: the job manager. Each method holds the lock while it reads and writes, so a history is
-- a sequence of whole operations; the worker thread's end is one of them.
pub mod Table
pub mod Invariant
pub mod History
use fixrepro.Base.{
  ℕ, suc, String, Bool, true, false, not, ◌&&◌, Option, none, some, ◌==◌, string_eq, option_eq,
  if◌then◌else◌, List, [], ◌∷◌, length, ltb, is_none, ◌⊎◌, inl, inr,
}
use fixrepro.Core.Models.{◌>>=◌}

pub data JobStatus : Type 0 where
  queued running completed failed : JobStatus

pub record PublicJobError : Type 0 where
  pub code : String
  pub message : String

-- `_JobRecord`; the presentation of a bundle is a parameter.
pub record JobRecord (R : Type 0) : Type 0 where
  pub job_id : String
  pub status : JobStatus
  pub created_at : String
  pub started_at : Option String
  pub finished_at : Option String
  pub result : Option R
  pub error : Option PublicJobError

-- What the three calls of `_run_job` give: a presentation, one of the exceptions that the first
-- `except` names, or another one.
pub data Attempt (R : Type 0) : Type 0 where
  presented : R → Attempt R
  bundle_error verification_error presentation_error os_error value_error : Attempt R
  other_exception : Attempt R

-- The exceptions of `start_job`.
pub data StartError : Type 0 where
  shutting_down_error already_running_error thread_error : StartError

module _ {R : Type 0} where
  abbrev pub is_finished : JobRecord R → Bool
  is_finished r = elim r.status [
    | queued ↦ false
    | running ↦ false
    | completed ↦ true
    | failed ↦ true
  ]

  -- The dict of the jobs in the order of insertion: `self._jobs.get(key)`.
  unfoldable pub get_record : String → List (String × JobRecord R) → Option (JobRecord R)
  get_record key [] = none
  get_record key ((k, r) ∷ rest) = if k == key then some r else get_record key rest

  -- `self._jobs[key] = record`: a new key goes to the end, a known one keeps its place.
  unfoldable pub set_record :
      String → JobRecord R → List (String × JobRecord R) → List (String × JobRecord R)
  set_record key new [] = (key, new) ∷ []
  set_record key new ((k, r) ∷ rest) =
      if k == key then (k, new) ∷ rest else (k, r) ∷ set_record key new rest

  -- `self._jobs.pop(key, None)`
  unfoldable pub pop_record : String → List (String × JobRecord R) → List (String × JobRecord R)
  pop_record key [] = []
  pop_record key ((k, r) ∷ rest) = if k == key then rest else (k, r) ∷ pop_record key rest

  -- The finished jobs other than the active one, oldest first.
  unfoldable pub finished_ids : Option String → List (String × JobRecord R) → List String
  finished_ids active [] = []
  finished_ids active ((k, r) ∷ rest) =
      let more = finished_ids active rest in
      if is_finished r && not (some k == active) then k ∷ more else more

abbrev pub max_finished_jobs : ℕ
max_finished_jobs = 10

module _ {R : Type 0} where
  -- The loop of `_trim_finished_locked` over the finished jobs.
  unfoldable pub trim : List String → List (String × JobRecord R) → List (String × JobRecord R)
  trim [] jobs = jobs
  trim (oldest ∷ finished) jobs =
      let rest = trim finished (pop_record oldest jobs) in
      if ltb max_finished_jobs (length (oldest ∷ finished)) then rest else jobs

-- The worker is known by the job that it runs.
pub record VerificationJobManager (R : Type 0) : Type 0 where
  pub jobs : List (String × JobRecord R)
  pub active_job_id : Option String
  pub worker : Option String
  pub shutting_down : Bool

unfoldable pub new_manager : (R : Type 0) → VerificationJobManager R
new_manager R = record { jobs = []; active_job_id = none; worker = none; shutting_down = false }

module _ {R : Type 0} where
  abbrev pub new_job : String → String → JobRecord R
  new_job job_id now = record {
    job_id = job_id;
    status = running;
    created_at = now;
    started_at = some now;
    finished_at = none;
    result = none;
    error = none;
  }

  -- `start_job` with the identifier and the time that it draws, and whether `worker.start()` succeeds.
  unfoldable pub start_job :
      String
      → String
      → Bool
      → VerificationJobManager R
      → (StartError ⊎ String) × VerificationJobManager R
  start_job job_id now thread_starts m =
      if m.shutting_down
      then (inl shutting_down_error, m)
      else if not (is_none m.active_job_id)
      then (inl already_running_error, m)
      else (let jobs = set_record job_id (new_job job_id now) m.jobs in
          if thread_starts
          then (
            inr job_id,
            record m { jobs = jobs; active_job_id = some job_id; worker = some job_id },
          )
          else (
            inl thread_error,
            record m { jobs = pop_record job_id jobs; active_job_id = none; worker = none },
          ))

  unfoldable pub get_job : String → VerificationJobManager R → Option (JobRecord R)
  get_job job_id m = get_record job_id m.jobs

  -- The end of a job under the lock: the record is updated, the worker is forgotten, and the history is
  -- trimmed. `none` is the `KeyError` of `self._jobs[job_id]`.
  unfoldable pub close_job :
      String
      → (JobRecord R → JobRecord R)
      → VerificationJobManager R
      → Option (VerificationJobManager R)
  close_job job_id update m = do
    r ← get_record job_id m.jobs
    let jobs = set_record job_id (update r) m.jobs
    some (record m {
      jobs = trim (finished_ids none jobs) jobs;
      active_job_id = none;
      worker = none;
    })

  abbrev pub completed_record : String → R → JobRecord R → JobRecord R
  completed_record now presentation r = record r {
    status = completed;
    finished_at = some now;
    result = some presentation;
    error = none;
  }

  abbrev pub failed_record : String → String → String → JobRecord R → JobRecord R
  failed_record now code message r = record r {
    status = failed;
    finished_at = some now;
    result = none;
    error = some (record { code = code; message = message });
  }

  -- `_finish_failed`
  unfoldable pub finish_failed :
      String
      → String
      → String
      → String
      → VerificationJobManager R
      → Option (VerificationJobManager R)
  unfolding close_job
  finish_failed job_id code message now m = close_job job_id (failed_record now code message) m

  unfoldable pub start_failed :
      String → String → VerificationJobManager R → Option (VerificationJobManager R)
  unfolding finish_failed
  start_failed job_id now m =
      finish_failed job_id "VERIFICATION_START_FAILED"
        "Deterministic verification could not be completed." now m

  -- What `_run_job` does once its three calls have ended.
  unfoldable pub run_job :
      String → String → Attempt R → VerificationJobManager R → Option (VerificationJobManager R)
  unfolding start_failed close_job finish_failed
  run_job job_id now (presented p) m = close_job job_id (completed_record now p) m
  run_job job_id now other_exception m =
      finish_failed job_id "INTERNAL_ERROR"
        "Verification failed because of an internal operational error." now m
  run_job job_id now _ m = start_failed job_id now m

  -- `shutdown`, up to the join of the worker.
  unfoldable pub shutdown : VerificationJobManager R → VerificationJobManager R
  shutdown m = record m { shutting_down = true }
