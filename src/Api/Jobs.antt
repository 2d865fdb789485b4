-- ===== src/Api/Jobs.antt =====
-- internal/api/server.go: the job store, and what the goroutine of `startDownload` does to its job. A
-- map from ids is a list of pairs. Of a job its request and what only the stream uses are left out, and
-- of its status the percentage, which is a floating-point number. The last element of a path is a
-- parameter.
pub mod Lifecycle
use sid_torrent.Prelude.{
  ℕ, Bool, true, false, Option, none, some, List, [], ◌∷◌, leb, if◌then◌else◌,
}
use sid_torrent.Prelude.Bytes.{Bytes, bytes_equal, codes}
use sid_torrent.Api.Stream.{VideoFile, ext, to_lower, is_video_extension}

-- `session.Status`
pub record Status : Type 0 where
  pub phase : Bytes
  pub message : Bytes
  pub torrent_name : Bytes
  pub output_path : Bytes
  pub peer_count : ℕ
  pub active_peers : ℕ
  pub pending : ℕ
  pub in_progress : ℕ
  pub completed : ℕ
  pub total_pieces : ℕ
  pub downloaded : ℕ
  pub total_bytes : ℕ
  pub started_at_unix : ℕ
  pub updated_at_unix : ℕ

pub data JobState : Type 0 where
  queued running complete failed cancelled : JobState

-- `has_cancel` tells whether `cancel` is not nil.
pub record Job : Type 0 where
  pub id : Bytes
  pub state : JobState
  pub error : Bytes
  pub status : Status
  pub created_at : ℕ
  pub is_video : Bool
  pub video_name : Bytes
  pub has_cancel : Bool
  pub output_path : Bytes

abbrev pub JobStore : Type 0
JobStore = List (Bytes × Job)

abbrev pub no_status : Status
no_status = record {
  phase = [];
  message = [];
  torrent_name = [];
  output_path = [];
  peer_count = 0;
  active_peers = 0;
  pending = 0;
  in_progress = 0;
  completed = 0;
  total_pieces = 0;
  downloaded = 0;
  total_bytes = 0;
  started_at_unix = 0;
  updated_at_unix = 0;
}

-- The job that `startDownload` makes.
unfoldable pub new_job : Bytes → ℕ → Job
new_job id now = record {
  id = id;
  state = queued;
  error = [];
  status = no_status;
  created_at = now;
  is_video = false;
  video_name = [];
  has_cancel = true;
  output_path = [];
}

-- `s.jobs[id]`
unfoldable pub job_at : Bytes → JobStore → Option Job
job_at id [] = none
job_at id ((k, job) ∷ s) = if bytes_equal k id then some job else job_at id s

-- `s.jobs[id] = job`
unfoldable pub store_at : Bytes → Job → JobStore → JobStore
store_at id job [] = (id, job) ∷ []
store_at id job ((k, old) ∷ s) =
    if bytes_equal k id then (k, job) ∷ s else (k, old) ∷ store_at id job s

-- `Put`
unfoldable pub put_job : JobStore → Job → JobStore
unfolding store_at
put_job s job = store_at job.id job s

unfoldable pub clone_job : Job → Job
clone_job job = record job { has_cancel = false }

-- `Get`
unfoldable pub get_job : JobStore → Bytes → Option Job
unfolding job_at clone_job
get_job s id = elim (job_at id s) [ none ↦ none | some job ↦ some (clone_job job) ]

-- `List`, with the later jobs first.
unfoldable pub insert_job : Job → List Job → List Job
insert_job job [] = job ∷ []
insert_job job (other ∷ jobs) =
    if leb other.created_at job.created_at then job ∷ other ∷ jobs else other ∷ insert_job job jobs

unfoldable pub list_jobs : JobStore → List Job
unfolding insert_job clone_job
list_jobs [] = []
list_jobs ((k, job) ∷ s) = insert_job (clone_job job) (list_jobs s)

-- `Update`
unfoldable pub update_job : JobStore → Bytes → (Job → Job) → JobStore
unfolding job_at store_at
update_job s id change = elim (job_at id s) [ none ↦ s | some job ↦ store_at id (change job) s ]

abbrev pub with_phase : Job → Bytes → Bytes → Job
with_phase job phase message = record job {
  status = record job.status { phase = phase; message = message };
}

unfoldable pub mark_cancelled : Job → Job
mark_cancelled job = record (with_phase job (codes "cancelled") (codes "Download cancelled")) {
  state = cancelled;
}

-- `Cancel`: the store, the copy of the job, and whether its context is cancelled.
unfoldable pub cancel_job : JobStore → Bytes → JobStore × Option Job × Bool
unfolding job_at store_at mark_cancelled clone_job
cancel_job s id = elim (job_at id s) [
  | none ↦ (s, none, false)
  | some job ↦
      (store_at id (mark_cancelled job) s, some (clone_job (mark_cancelled job)), job.has_cancel)
]

-- The updates of the goroutine of `startDownload`: when it begins, when the session reports, when the
-- session has started, and when it is over, with the text of the session's error.
unfoldable pub mark_running : Job → Job
mark_running job = record (with_phase job (codes "queued") (codes "Download queued")) {
  state = running;
}

unfoldable pub mark_status : Status → Job → Job
mark_status status job = record job { status = status }

unfoldable pub mark_video : (Bytes → Bytes) → Option VideoFile → Job → Job
unfolding is_video_extension ext to_lower
mark_video base none job = job
mark_video base (some vf) job =
    if is_video_extension (to_lower (ext vf.path))
    then record job { is_video = true; video_name = base vf.path }
    else job

unfoldable pub mark_started : (Bytes → Bytes) → Bytes → Option VideoFile → Job → Job
unfolding mark_video
mark_started base output_path found job =
    mark_video base found (record job { output_path = output_path })

unfoldable pub mark_over : Option Bytes → Bool → Job → Job
unfolding mark_cancelled
mark_over none ctx_done job = record job { state = complete }
mark_over (some text) ctx_done job =
    if ctx_done
    then mark_cancelled job
    else record (with_phase job (codes "failed") text) { state = failed; error = text }
