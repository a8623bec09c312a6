-- ===== src/Server/Samples.antt =====
-- Sample states for the tests: a server with one client and workorders in every stage.
use remerge.Prelude.{true, false, none, some, [], ◌∷◌, ok}
use remerge.Prelude.Text.{codes, text_eq}
use remerge.Prelude.Int.{pos}
use remerge.Types.Client
use remerge.Types.Client.{ClientState, WorkorderId, main}
use remerge.Types.Samples.{order, config, host}
use remerge.Types.Workorder.{WorkorderStatus, pending, building, completed}
use remerge.Auth.{CertRegistry, HeaderMap}
use remerge.Registry.{Hashing}
use remerge.Server.State.{ServerConfig, AppState, new_metrics}
use remerge.Server.Submit.{Arrival, SubmitWorkorderRequest}
use remerge.Server.Queue.Process.{World, built, broken, no_parity}
use remerge.Server.Restart.{Saved}

abbrev pub settings : ServerConfig
settings = record {
  max_workers = 2;
  max_active_workorders = 2;
  build_timeout_secs = 60;
  retention_hours = 24;
  max_retained_workorders = 1;
  binhost_url = codes "http://b";
  has_tls = false;
  request_body_size_bytes = 1024;
  worker_memory_bytes = pos 4096;
  worker_cpu_shares = pos 1024;
  worker_network_mode = codes "bridge";
  snapshot_cache_grace_period_hours = 168;
  snapshot_cache_hard_delete_hours = 720;
  repos_dir = none;
}

abbrev pub open_auth : CertRegistry
open_auth = record { mode = Client.none; cert_header = codes "x-cert"; entries = [] }

abbrev pub no_headers : HeaderMap
no_headers name = none

abbrev pub toy : Hashing
toy = record {
  config_json = λ c. some c.profile;
  system_json = λ s. some s.gcc_version;
  sha256_hex = λ t. t;
}

-- A server that has just started
abbrev pub idle : AppState
idle = record {
  config = settings;
  auth = open_auth;
  clients = [];
  workorders = [];
  results = [];
  progress_txs = [];
  raw_output_txs = [];
  stdin_txs = [];
  container_ids = [];
  image_last_used = [];
  staged_workorder_references = [];
  metrics = new_metrics;
  sent = [];
}

abbrev pub client_of : WorkorderId → ClientState
client_of id = record {
  client_id = 7;
  config_hash = codes "p";
  system_hash = codes "13.2.0";
  last_seen = 1;
  active_workorder = some id;
}

-- One workorder in the given status, of client 7, with its channels open
abbrev pub holding : WorkorderStatus → AppState
holding status = record idle {
  clients = (7, client_of 1) ∷ [];
  workorders = (1, order 1 7 status) ∷ [];
  progress_txs = (1, tt) ∷ [];
  raw_output_txs = (1, tt) ∷ [];
}

-- Two ended workorders and one that waits
abbrev pub crowded : AppState
crowded = record idle {
  workorders = (3, order 3 7 completed) ∷ (1, order 1 7 completed) ∷ (2, order 2 8 pending) ∷ [];
}

abbrev pub arrival : WorkorderId → Arrival
arrival id = record {
  id = id;
  now = 10;
  trace_context = record { trace_id = codes "t"; traceparent = codes "00" };
  normalized = ok (config (codes "p"));
  shown_id = codes "1";
}

abbrev pub request : WorkorderId → SubmitWorkorderRequest
request client = record {
  client_id = client;
  role = main;
  atoms = codes "dev-libs/openssl" ∷ [];
  emerge_args = [];
  portage_config = config (codes "p");
  system_id = host;
}

-- A build in which all goes well
abbrev pub good_world : World
good_world = record {
  image_tag = codes "img";
  needs_rebuild = false;
  image_build = ok tt;
  staged = ok (record {
    blob_digests = [];
    tree_digests = [];
    total_blob_bytes = 0;
    total_tree_bytes = 0;
    last_referenced_at = 0;
  });
  container = ok (codes "c1");
  in_time = true;
  exit = ok (pos 0);
  events = built (codes "a/b") 3 ∷ broken (codes "a/c") (codes "why") ∷ [];
  parity = ok no_parity;
  distfiles = ok [];
  scanned = ok [];
  elapsed_secs = 5;
  removed = true;
  decimal = λ n. [];
  signed = λ n. [];
}

abbrev pub saved : Saved
saved = record {
  workorders = some ((1, order 1 7 building) ∷ []);
  results = none;
  clients = some ((7, client_of 1) ∷ []);
}
