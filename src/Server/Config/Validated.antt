-- ===== src/Server/Config/Validated.antt =====
-- crates/server/src/config.rs: what holds of a configuration that `validate` has passed over, and
-- the configurations that it leaves as they are.
use remerge.Prelude.{
  ℕ, ◌≡◌, refl, Bool, true, false, Option, none, some, ◌⊎◌, ◌≤◌, ◌<◌, ◌↔◌, inl, inr, Bool-cases,
  arith, if◌then◌else◌, ◌==◌,
}
use remerge.Prelude.Text.{Text, is_empty, trim, trim_start, trim_end, is_whitespace}
use remerge.Server.State.{ServerConfig}
use remerge.Server.Config.{
  validate, validate_grace, validate_hard_delete, validate_repos_dir, is_not_positive,
  default_snapshot_cache_hard_delete_hours, default_worker_network_mode,
}

-- the directory of the repositories, if one is given, is one
pub IsFound : (Text → Bool) → (Text → Bool) → Option Text → Type 0
IsFound exists is_dir none = Unit
IsFound exists is_dir (some path) = (exists path ≡ true) × (is_dir path ≡ true)

-- The values that `validate` has no reason to reset: sizes, shares and windows are positive, the
-- network mode is not blank, and the hard-delete window is no shorter than the grace period or is
-- the default that it would be reset to.
pub record IsUsable (exists is_dir : Text → Bool) (c : ServerConfig) : Type 0 where
  pub body : 0 < c.request_body_size_bytes
  pub memory : is_not_positive c.worker_memory_bytes ≡ false
  pub shares : is_not_positive c.worker_cpu_shares ≡ false
  pub network : is_empty (trim c.worker_network_mode) ≡ false
  pub grace : 0 < c.snapshot_cache_grace_period_hours
  pub hard : 0 < c.snapshot_cache_hard_delete_hours
  pub window :
      (c.snapshot_cache_grace_period_hours ≤ c.snapshot_cache_hard_delete_hours)
      ⊎ (c.snapshot_cache_hard_delete_hours ≡ default_snapshot_cache_hard_delete_hours)
  pub repos : IsFound exists is_dir c.repos_dir

validate_repos_dir-IsFound :
    (exists is_dir : Text → Bool) (o : Option Text)
    → IsFound exists is_dir (validate_repos_dir exists is_dir o)
unfolding IsFound validate_repos_dir
validate_repos_dir-IsFound exists is_dir none = tt
validate_repos_dir-IsFound exists is_dir (some path) = elim (Bool-cases (exists path)) [
  | inr missing ↦ rw missing tt
  | inl there ↦ elim (Bool-cases (is_dir path)) [
    | inr file ↦ rw (there, file) tt
    | inl dir ↦ rw (there, dir) (there, dir)
  ]
]

validate_repos_dir_found :
    (exists is_dir : Text → Bool) (o : Option Text)
    → IsFound exists is_dir o
    → validate_repos_dir exists is_dir o ≡ o
unfolding IsFound validate_repos_dir
validate_repos_dir_found exists is_dir none found = refl
validate_repos_dir_found exists is_dir (some path) (there, dir) = rw (there, dir) refl

validate_hard_delete-window :
    (grace hard : ℕ)
    → (grace ≤ validate_hard_delete grace hard)
      ⊎ (validate_hard_delete grace hard ≡ default_snapshot_cache_hard_delete_hours)
unfolding validate_hard_delete
validate_hard_delete-window grace hard = ground arith

validate_hard_delete-positive : (grace hard : ℕ) → 0 < validate_hard_delete grace hard
unfolding validate_hard_delete
validate_hard_delete-positive grace hard = ground arith

validate_grace-positive : (grace : ℕ) → 0 < validate_grace grace
unfolding validate_grace
validate_grace-positive grace = ground arith

validate_grace_fixed : (grace : ℕ) → 0 < grace → validate_grace grace ≡ grace
unfolding validate_grace
validate_grace_fixed grace positive = ground arith

validate_hard_delete_fixed :
    (grace hard : ℕ)
    → 0 < hard
    → (grace ≤ hard) ⊎ (hard ≡ default_snapshot_cache_hard_delete_hours)
    → validate_hard_delete grace hard ≡ hard
unfolding validate_hard_delete
validate_hard_delete_fixed grace hard positive window = ground arith

non_zero : (n : ℕ) → 0 < n → (n == 0) ≡ false
non_zero n positive = ground arith

default_network_mode_fine : is_empty (trim default_worker_network_mode) ≡ false
unfolding trim trim_start trim_end is_whitespace
default_network_mode_fine = refl

reset : {A : Type 0} (P : A → Bool) (d a : A) → P d ≡ false → P (if P a then d else a) ≡ false
reset P d a good = elim (Bool-cases (P a)) [
  | inl bad ↦ rw bad good
  | inr fine ↦ rw (fine, fine) refl
]

-- After `validate` every value is positive where it must be, the network mode is not blank, the
-- directory of the repositories is absent or one, and the hard-delete window is no shorter than the
-- grace period or the default; a configuration of which all this holds is left as it is.
pub validate_lem :
    (exists is_dir : Text → Bool) (c : ServerConfig)
    → IsUsable exists is_dir (validate exists is_dir c)
      × (IsUsable exists is_dir c → validate exists is_dir c ≡ c)
unfolding validate
validate_lem exists is_dir c = (
  record {
    body = ground arith;
    memory = reset is_not_positive _ c.worker_memory_bytes refl;
    shares = reset is_not_positive _ c.worker_cpu_shares refl;
    network = reset (λ t. is_empty (trim t)) _ c.worker_network_mode default_network_mode_fine;
    grace = validate_grace-positive c.snapshot_cache_grace_period_hours;
    hard = validate_hard_delete-positive _ c.snapshot_cache_hard_delete_hours;
    window = validate_hard_delete-window _ c.snapshot_cache_hard_delete_hours;
    repos = validate_repos_dir-IsFound exists is_dir c.repos_dir;
  },
  λ u.
      rw
        (
          non_zero _ u.body,
          u.memory,
          u.shares,
          u.network,
          validate_grace_fixed _ u.grace,
          validate_hard_delete_fixed _ _ u.hard u.window,
          validate_repos_dir_found exists is_dir c.repos_dir u.repos,
        )
        refl,
)

-- The windows of the snapshot cache end up in order exactly if the grace period is at most the
-- default hard-delete window, or was not longer than the hard-delete window that was configured.
pub validate-window_iff :
    (exists is_dir : Text → Bool) (c : ServerConfig)
    → ((validate exists is_dir c).snapshot_cache_grace_period_hours
        ≤ (validate exists is_dir c).snapshot_cache_hard_delete_hours)
      ↔ ((c.snapshot_cache_grace_period_hours ≤ default_snapshot_cache_hard_delete_hours)
          ⊎ (c.snapshot_cache_grace_period_hours ≤ c.snapshot_cache_hard_delete_hours))
unfolding validate validate_grace validate_hard_delete
validate-window_iff exists is_dir c = ground arith
