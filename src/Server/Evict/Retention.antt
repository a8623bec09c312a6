-- ===== src/Server/Evict/Retention.antt =====
-- What an eviction removes and what it keeps.
use remerge.Prelude.{Bool, ◌&&◌, nat_eq, ltb}
use remerge.Types.Workorder.{Workorder, is_terminal_status}

-- It has ended, and earlier than the other.
abbrev pub is_older : Workorder → Workorder → Bool
is_older w v = is_terminal_status v.status && ltb v.updated_at w.updated_at
