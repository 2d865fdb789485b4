-- ===== src/Tests/Jobs.antt =====
-- internal/api/server.go: a job that is cancelled while it runs.
use sid_torrent.Prelude.{◌≡◌, refl, some, [], ◌||◌}
use sid_torrent.Prelude.Bytes.{Bytes, codes}
use sid_torrent.Api.Jobs.{Job, get_job, update_job, cancel_job, mark_running, mark_over}
use sid_torrent.Api.Jobs.Lifecycle.{
  Task, Reaches, begins, cancels, ends, stays, goes, downloads, over, fresh_task, Fits,
  get_job-Fits,
}

abbrev id : Bytes
id = codes "a1"

abbrev at_start : Task
at_start = fresh_task [] id 7

abbrev at_work : Task
at_work = record at_start { jobs = update_job at_start.jobs id mark_running; phase = downloads }

abbrev at_cancel : Task
at_cancel = record at_work {
  jobs = (cancel_job at_work.jobs id).0;
  ctx_done = at_work.ctx_done || (cancel_job at_work.jobs id).2;
}

abbrev at_end : Task
at_end = record at_cancel {
  jobs = update_job at_cancel.jobs id (mark_over (some (codes "stopped")) at_cancel.ctx_done);
  phase = over;
}

run : Reaches id at_start at_end
run =
    goes (begins at_start refl)
      (goes (cancels at_work) (goes (ends at_cancel (some (codes "stopped")) refl) (stays at_end)))

get_job-Fits_example :
    (job : Job) × (get_job at_end.jobs id ≡ some job) × Fits at_end.phase at_end.ctx_done job.state
get_job-Fits_example = get_job-Fits [] id 7 run
