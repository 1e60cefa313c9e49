-- ===== src/Storage.antt =====
-- src/lib/sqliteManager.c: what its wrappers make of the return codes of `sqlite3_exec`.
use i_dcu_io_t.Common.{ℕ, Bool, true, ◌==◌, if◌then◌else◌}

-- The codes of sqlite3.h that the wrappers tell apart.
abbrev pub sqlite_ok : ℕ
sqlite_ok = 0

abbrev pub sqlite_error : ℕ
sqlite_error = 1

pub data Status : Type 0 where
  insert_begin insert_end other : Status

-- `_sqlite3_transaction`: `true` stands for a returned 0, `false` for -1.
unfoldable pub transaction : Status → ℕ → Bool
transaction insert_begin rc = rc == sqlite_ok
transaction insert_end rc = if rc == sqlite_error then true else rc == sqlite_ok
transaction other rc = true
