-- ===== src/Server/Config/Tests.antt =====
-- Runs of `validate`.
use remerge.Prelude.{Bool, ◌≡◌, refl, ◌⊎◌, ◌≤◌, ◌↔◌, some, ◌||◌}
use remerge.Prelude.Text.{Text, codes, text_beq, trim, trim_start, trim_end, is_whitespace}
use remerge.Prelude.Int.{pos, negsuc}
use remerge.Server.State.{ServerConfig}
use remerge.Server.Samples.{settings}
use remerge.Server.Config.{
  validate, validate_repos_dir, validate_grace, validate_hard_delete, default_worker_memory_bytes,
  default_snapshot_cache_hard_delete_hours,
}
use remerge.Server.Config.Validated.{IsUsable, validate_lem, validate-window_iff}

-- one directory, and one file beside it
abbrev exists : Text → Bool
exists path = text_beq path (codes "/repos") || text_beq path (codes "/file")

abbrev is_dir : Text → Bool
is_dir path = text_beq path (codes "/repos")

-- nothing in it can be used
abbrev bad : ServerConfig
bad = record settings {
  request_body_size_bytes = 0;
  worker_memory_bytes = negsuc 0;
  worker_cpu_shares = pos 0;
  worker_network_mode = codes "  ";
  snapshot_cache_grace_period_hours = 0;
  snapshot_cache_hard_delete_hours = 1;
  repos_dir = some (codes "/file");
}

-- a grace period longer than the default hard-delete window, and a hard-delete window below it
abbrev long_grace : ServerConfig
long_grace = record settings {
  snapshot_cache_grace_period_hours = 1000;
  snapshot_cache_hard_delete_hours = 900;
}

bad_validated : validate exists is_dir bad ≡ (record settings {
  request_body_size_bytes = 2097152;
  worker_memory_bytes = default_worker_memory_bytes;
})
unfolding validate validate_repos_dir validate_grace validate_hard_delete trim trim_start trim_end
    is_whitespace
bad_validated = refl

repos_kept : validate_repos_dir exists is_dir (some (codes "/repos")) ≡ some (codes "/repos")
unfolding validate_repos_dir
repos_kept = refl

long_grace_validated : (validate exists is_dir long_grace).snapshot_cache_hard_delete_hours ≡ 720
unfolding validate validate_grace validate_hard_delete
long_grace_validated = refl

validate_lem_example :
    IsUsable exists is_dir (validate exists is_dir bad)
    × (IsUsable exists is_dir bad → validate exists is_dir bad ≡ bad)
validate_lem_example = validate_lem exists is_dir bad

validate-window_iff_example :
    ((validate exists is_dir long_grace).snapshot_cache_grace_period_hours
      ≤ (validate exists is_dir long_grace).snapshot_cache_hard_delete_hours)
    ↔ ((1000 ≤ default_snapshot_cache_hard_delete_hours) ⊎ (1000 ≤ 900))
validate-window_iff_example = validate-window_iff exists is_dir long_grace
