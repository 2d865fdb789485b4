-- ===== src/Api.antt =====
-- internal/api: the jobs of the server, and the stream of a file that is being downloaded.
pub mod Stream
pub mod Jobs
