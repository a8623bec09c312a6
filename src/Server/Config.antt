-- ===== src/Server/Config.antt =====
-- crates/server/src/config.rs: the defaults and `ServerConfig::validate`, which resets values that
-- cannot be used. The file system is asked by two functions on paths, `exists` and `is_dir`; the
-- warnings that are logged are left out.
use remerge.Prelude.{
  ℕ, ◌*◌, Bool, true, false, Option, none, some, if◌then◌else◌, ltb, ◌==◌, ◌||◌, not,
}
use remerge.Prelude.Text.{Text, codes, is_empty, trim}
use remerge.Prelude.Int.{ℤ, pos, negsuc}
use remerge.Server.State.{ServerConfig}
pub mod Validated
pub mod Tests

abbrev pub default_request_body_size_bytes : ℕ
default_request_body_size_bytes = 2 * 1024 * 1024

abbrev pub default_worker_memory_bytes : ℤ
default_worker_memory_bytes = pos (4 * 1024 * 1024 * 1024)

abbrev pub default_worker_cpu_shares : ℤ
default_worker_cpu_shares = pos 1024

abbrev pub default_worker_network_mode : Text
default_worker_network_mode = codes "bridge"

abbrev pub default_snapshot_cache_grace_period_hours : ℕ
default_snapshot_cache_grace_period_hours = 7 * 24

abbrev pub default_snapshot_cache_hard_delete_hours : ℕ
default_snapshot_cache_hard_delete_hours = 30 * 24

-- `value <= 0` on an `i64`
abbrev pub is_not_positive : ℤ → Bool
is_not_positive (pos n) = n == 0
is_not_positive (negsuc n) = true

-- `repos_dir` after its check
unfoldable pub validate_repos_dir : (Text → Bool) → (Text → Bool) → Option Text → Option Text
validate_repos_dir exists is_dir none = none
validate_repos_dir exists is_dir (some path) =
    if not (exists path) then none else if not (is_dir path) then none else some path

-- the two retention windows of the snapshot cache, the hard-delete window last
unfoldable pub validate_grace : ℕ → ℕ
validate_grace grace = if grace == 0 then default_snapshot_cache_grace_period_hours else grace

unfoldable pub validate_hard_delete : ℕ → ℕ → ℕ
validate_hard_delete grace hard =
    let hard' = if hard == 0 then default_snapshot_cache_hard_delete_hours else hard in
    if ltb hard' grace then default_snapshot_cache_hard_delete_hours else hard'

-- `ServerConfig::validate`
unfoldable pub validate : (Text → Bool) → (Text → Bool) → ServerConfig → ServerConfig
validate exists is_dir c =
    let grace = validate_grace c.snapshot_cache_grace_period_hours in
    record c {
      request_body_size_bytes =
          if c.request_body_size_bytes == 0
          then default_request_body_size_bytes
          else c.request_body_size_bytes;
      worker_memory_bytes =
          if is_not_positive c.worker_memory_bytes
          then default_worker_memory_bytes
          else c.worker_memory_bytes;
      worker_cpu_shares =
          if is_not_positive c.worker_cpu_shares
          then default_worker_cpu_shares
          else c.worker_cpu_shares;
      worker_network_mode =
          if is_empty (trim c.worker_network_mode)
          then default_worker_network_mode
          else c.worker_network_mode;
      snapshot_cache_grace_period_hours = grace;
      snapshot_cache_hard_delete_hours =
          validate_hard_delete grace c.snapshot_cache_hard_delete_hours;
      repos_dir = validate_repos_dir exists is_dir c.repos_dir;
    }
