-- ===== src/Types/Samples.antt =====
-- Sample data for the tests: a small portage configuration, a host and a workorder.
use remerge.Prelude.{false, none, [], ◌∷◌}
use remerge.Prelude.Text.{Text, codes}
use remerge.Types.Client.{main, ClientId, WorkorderId}
use remerge.Types.Portage.{PortageConfig, SystemIdentity, MakeConf}
use remerge.Types.Workorder.{Workorder, WorkorderStatus}

abbrev make_conf : MakeConf
make_conf = record {
  cflags = codes "-O2 -pipe";
  cxxflags = codes "${CFLAGS}";
  ldflags = [];
  makeopts = codes "-j1";
  use_flags = [];
  features = [];
  accept_license = [];
  accept_keywords = codes "amd64";
  emerge_default_opts = [];
  chost = [];
  cpu_flags = none;
  original_cflags = none;
  use_expand = [];
  extra = [];
  use_flags_resolved = false;
}

abbrev pub config : Text → PortageConfig
config profile = record {
  make_conf = make_conf;
  package_use = [];
  package_accept_keywords = [];
  package_license = [];
  package_mask = [];
  package_unmask = [];
  package_env = [];
  env_files = [];
  repos_conf = [];
  snapshot_manifest = record { version = 1; repo_snapshots = []; distfiles = [] };
  repo_snapshots = [];
  repo_snapshot_refs = [];
  repo_snapshot_trees = [];
  patches = [];
  profile_overlay = [];
  distfile_snapshots = [];
  distfile_snapshot_refs = [];
  profile = profile;
  world = [];
}

abbrev pub host : SystemIdentity
host = record {
  arch = codes "amd64";
  chost = codes "x86_64-pc-linux-gnu";
  gcc_version = codes "13.2.0";
  libc_version = codes "2.38";
  kernel_version = codes "6.6.0";
  python_targets = [];
  profile = codes "p";
}

abbrev pub order : WorkorderId → ClientId → WorkorderStatus → Workorder
order id client status = record {
  id = id;
  client_id = client;
  role = main;
  atoms = codes "dev-libs/openssl" ∷ [];
  emerge_args = [];
  portage_config = config (codes "p");
  system_id = host;
  trace_context = none;
  status = status;
  created_at = id;
  updated_at = id;
}
