-- ===== src/Stats.antt =====
-- src/core/stats.h, the error counters of the global statistics (`g_stats.errors`).
use squashfs_fuse.Common.{ℕ, ◌+◌}
use squashfs_fuse.Utils.{u64}

pub record ErrorStats : Type 0 where
  pub total : ℕ
  pub io : ℕ
  pub corrupt : ℕ
  pub no_memory : ℕ

-- SQFS_STATS_ERROR_IO, SQFS_STATS_ERROR_CORRUPT.
abbrev pub error_io : ErrorStats → ErrorStats
error_io s = record s { io = u64 (s.io + 1); total = u64 (s.total + 1) }

abbrev pub error_corrupt : ErrorStats → ErrorStats
error_corrupt s = record s { corrupt = u64 (s.corrupt + 1); total = u64 (s.total + 1) }
