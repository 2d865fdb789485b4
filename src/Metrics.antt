-- ===== src/Metrics.antt =====
-- internal/metrics/metrics.go: the counters. `Report` prints quotients of them, and is left out.
use sid_torrent.Prelude.{ℕ, ◌+◌}

pub record MetricsTracker : Type 0 where
  pub downloaded : ℕ
  pub uploaded : ℕ
  pub active_peers : ℕ
  pub success_pieces : ℕ
  pub failed_pieces : ℕ
  pub disk_latency_ms : ℕ
  pub disk_writes : ℕ

unfoldable pub add_downloaded : MetricsTracker → ℕ → MetricsTracker
add_downloaded m bytes = record m { downloaded = m.downloaded + bytes }

unfoldable pub add_uploaded : MetricsTracker → ℕ → MetricsTracker
add_uploaded m bytes = record m { uploaded = m.uploaded + bytes }

unfoldable pub set_active_peers : MetricsTracker → ℕ → MetricsTracker
set_active_peers m count = record m { active_peers = count }

unfoldable pub inc_success_pieces : MetricsTracker → MetricsTracker
inc_success_pieces m = record m { success_pieces = m.success_pieces + 1 }

unfoldable pub inc_failed_pieces : MetricsTracker → MetricsTracker
inc_failed_pieces m = record m { failed_pieces = m.failed_pieces + 1 }

-- The duration in milliseconds.
unfoldable pub record_disk_write : MetricsTracker → ℕ → MetricsTracker
record_disk_write m duration = record m {
  disk_writes = m.disk_writes + 1;
  disk_latency_ms = m.disk_latency_ms + duration;
}
