-- ===== src/Api/Jobs/Lifecycle.antt =====
-- internal/api/server.go: a job from `startDownload` on. Its goroutine, the requests to cancel it, and
-- the requests and goroutines of other jobs, which change those by `Put` and updates, take their steps
-- in any order.
use sid_torrent.Prelude.{
  ℕ, ◌≡◌, inl, inr, refl, Bool, true, false, Option, none, some, [], ◌∷◌, arith, if◌then◌else◌,
  Bool-cases, Option-cases, ◌∙◌, ◌||◌,
}
use sid_torrent.Prelude.Bytes.{
  Bytes, bytes_equal, bytes_equal→eq, bytes_equal_refl, bytes_equal_sym,
}
use sid_torrent.Api.Stream.{VideoFile, is_video_extension, to_lower, ext}
use sid_torrent.Api.Jobs.{
  Job, JobState, JobStore, Status, queued, running, complete, failed, cancelled, new_job, job_at,
  store_at, put_job, clone_job, get_job, update_job, mark_cancelled, cancel_job, mark_running,
  mark_status, mark_video, mark_started, mark_over,
}

-- How far the goroutine of a job is.
pub data Phase : Type 0 where
  waits downloads over : Phase

-- `ctx_done` tells whether the job's context is cancelled.
pub record Task : Type 0 where
  pub jobs : JobStore
  pub phase : Phase
  pub ctx_done : Bool

-- What may happen next, for the job with the id `id`.
pub data Step (id : Bytes) : Task → Task → Type 0 where
  begins :
      (t : Task)
      → t.phase ≡ waits
      → Step id t (record t { jobs = update_job t.jobs id mark_running; phase = downloads })
  reports :
      (t : Task) (status : Status)
      → t.phase ≡ downloads
      → Step id t (record t { jobs = update_job t.jobs id (mark_status status) })
  starts :
      (t : Task) (base : Bytes → Bytes) (output_path : Bytes) (found : Option VideoFile)
      → t.phase ≡ downloads
      → Step id t (record t { jobs = update_job t.jobs id (mark_started base output_path found) })
  ends :
      (t : Task) (result : Option Bytes)
      → t.phase ≡ downloads
      → Step id t
          (record t { jobs = update_job t.jobs id (mark_over result t.ctx_done); phase = over })
  cancels :
      (t : Task)
      → Step id t (record t {
        jobs = (cancel_job t.jobs id).0;
        ctx_done = t.ctx_done || (cancel_job t.jobs id).2;
      })
  joins :
      (t : Task) (other : Job)
      → bytes_equal other.id id ≡ false
      → Step id t (record t { jobs = put_job t.jobs other })
  changes :
      (t : Task) (other : Bytes) (change : Job → Job)
      → bytes_equal other id ≡ false
      → Step id t (record t { jobs = update_job t.jobs other change })

pub data Reaches (id : Bytes) : Task → Task → Type 0 where
  stays : (t : Task) → Reaches id t t
  goes : {t u v : Task} → Step id t u → Reaches id u v → Reaches id t v

-- The task of a job that `startDownload` has put into the store.
abbrev pub fresh_task : JobStore → Bytes → ℕ → Task
fresh_task jobs id now = record {
  jobs = put_job jobs (new_job id now);
  phase = waits;
  ctx_done = false;
}

-- The states that fit the phase of the goroutine and the context.
abbrev pub Fits : Phase → Bool → JobState → Type 0
Fits p done queued = p ≡ waits
Fits p done running = p ≡ downloads
Fits p done complete = p ≡ over
Fits p done failed = (p ≡ over) × (done ≡ false)
Fits p done cancelled = done ≡ true

-- The store has the job, in a state that fits.
abbrev pub IsTracked : Bytes → Task → Type 0
IsTracked id t =
    (job : Job) × (job_at id t.jobs ≡ some job)
    × (job.has_cancel ≡ true)
    × Fits t.phase t.ctx_done job.state

job_at-store_at :
    (id k : Bytes) (job : Job) (s : JobStore)
    → job_at id (store_at k job s) ≡ (if bytes_equal k id then some job else job_at id s)
unfolding job_at store_at
job_at-store_at id k job [] = refl
job_at-store_at id k job ((k', old) ∷ s) = elim (Bool-cases (bytes_equal k' k)) [
  | inl e ↦ let same : k' ≡ k = bytes_equal→eq k' k e in rw (e, same) (ground arith)
  | inr ne ↦ elim (Bool-cases (bytes_equal k' id)) [
    | inl e ↦
        let same : k' ≡ id = bytes_equal→eq k' id e in
        let apart : bytes_equal k id ≡ false = bytes_equal_sym k id ∙ rw same at ne in
        rw (ne, e, apart)
    | inr ne' ↦ rw (ne, ne', job_at-store_at id k job s)
  ]
]

-- A change of the job keeps it in the store.
job_at-update_job :
    (id : Bytes) (change : Job → Job) (s : JobStore) {job : Job}
    → job_at id s ≡ some job
    → job_at id (update_job s id change) ≡ some (change job)
unfolding update_job
job_at-update_job id change s {job} h =
    rw (h, update_job) (rw (job_at-store_at id id (change job) s, bytes_equal_refl id))

-- A change of another job leaves it as it is.
job_at-update_other :
    (id other : Bytes) (change : Job → Job) (s : JobStore)
    → bytes_equal other id ≡ false
    → job_at id (update_job s other change) ≡ job_at id s
unfolding update_job
job_at-update_other id other change s ne = elim (Option-cases (job_at other s)) [
  | inl none_there ↦ rw (none_there, update_job)
  | inr (job, there) ↦ rw (there, update_job) (rw (job_at-store_at id other (change job) s, ne))
]

job_at-cancel_job :
    (id : Bytes) (s : JobStore) {job : Job}
    → job_at id s ≡ some job
    → (job_at id (cancel_job s id).0 ≡ some (mark_cancelled job))
      × ((cancel_job s id).2 ≡ job.has_cancel)
unfolding cancel_job
job_at-cancel_job id s {job} h =
    rw (h, cancel_job)
      (rw (job_at-store_at id id (mark_cancelled job) s, bytes_equal_refl id), refl)

mark_started_keeps :
    (base : Bytes → Bytes) (output_path : Bytes) (found : Option VideoFile) (job : Job)
    → ((mark_started base output_path found job).state ≡ job.state)
      × ((mark_started base output_path found job).has_cancel ≡ job.has_cancel)
unfolding mark_started mark_video
mark_started_keeps base output_path none job = (refl, refl)
mark_started_keeps base output_path (some vf) job =
    elim (Bool-cases (is_video_extension (to_lower (ext vf.path)))) [
      | inl video ↦ rw video (refl, refl)
      | inr other ↦ rw other (refl, refl)
    ]

mark_over-Fits :
    (result : Option Bytes) (done : Bool) (job : Job)
    → Fits over done (mark_over result done job).state
      × ((mark_over result done job).has_cancel ≡ job.has_cancel)
unfolding mark_over mark_cancelled
mark_over-Fits none done job = (refl, refl)
mark_over-Fits (some text) true job = (refl, refl)
mark_over-Fits (some text) false job = ((refl, refl), refl)

or_true : (b : Bool) → (b || true) ≡ true
or_true false = refl
or_true true = refl

Step-IsTracked : {id : Bytes} {t u : Task} → Step id t u → IsTracked id t → IsTracked id u
unfolding mark_running mark_status mark_cancelled put_job
Step-IsTracked {id} (begins t p) (job, here, able, fits) =
    (mark_running job, job_at-update_job id mark_running t.jobs here, able, refl)
Step-IsTracked {id} (reports t status p) (job, here, able, fits) =
    (mark_status status job, job_at-update_job id (mark_status status) t.jobs here, able, fits)
Step-IsTracked {id} (starts t base output_path found p) (job, here, able, fits) =
    let (same, kept) = mark_started_keeps base output_path found job in
    let change = mark_started base output_path found in
    (change job, job_at-update_job id change t.jobs here, kept ∙ able, rw same fits)
Step-IsTracked {id} (ends t result p) (job, here, able, fits) =
    let (ok, kept) = mark_over-Fits result t.ctx_done job in
    let change = mark_over result t.ctx_done in
    (change job, job_at-update_job id change t.jobs here, kept ∙ able, ok)
Step-IsTracked {id} (cancels t) (job, here, able, fits) =
    let (there, told) = job_at-cancel_job id t.jobs here in
    (mark_cancelled job, there, able, rw (told, able) (or_true t.ctx_done))
Step-IsTracked {id} (joins t other ne) (job, here, able, fits) =
    (job, rw (job_at-store_at id other.id other t.jobs, ne) here, able, fits)
Step-IsTracked {id} (changes t other change ne) (job, here, able, fits) =
    (job, job_at-update_other id other change t.jobs ne ∙ here, able, fits)

Reaches-IsTracked : {id : Bytes} {t u : Task} → Reaches id t u → IsTracked id t → IsTracked id u
Reaches-IsTracked (stays t) h = h
Reaches-IsTracked (goes s r) h = Reaches-IsTracked r (Step-IsTracked s h)

fresh_task-IsTracked :
    (jobs : JobStore) (id : Bytes) (now : ℕ) → IsTracked id (fresh_task jobs id now)
unfolding put_job new_job
fresh_task-IsTracked jobs id now = (
  new_job id now,
  rw (job_at-store_at id id (new_job id now) jobs, bytes_equal_refl id),
  refl,
  refl,
)

-- Whatever steps follow `startDownload`, `Get` finds the job. The job waits or runs only as long as its
-- goroutine does; it is shown as cancelled only if its context was cancelled, as failed only if it was
-- not, and as complete or failed only when its goroutine is over.
pub get_job-Fits :
    (jobs : JobStore) (id : Bytes) (now : ℕ) {t : Task}
    → Reaches id (fresh_task jobs id now) t
    → (job : Job) × (get_job t.jobs id ≡ some job) × Fits t.phase t.ctx_done job.state
unfolding get_job clone_job
get_job-Fits jobs id now r =
    let (job, here, able, fits) = Reaches-IsTracked r (fresh_task-IsTracked jobs id now) in
    (clone_job job, rw (here, get_job), fits)
