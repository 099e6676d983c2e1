-- ===== src/ConnectionPool.antt =====
-- The class `ConnectionPool` of src/connection_manager.hpp and src/connection_manager.cpp. A manager
-- is known by a number; nothing is ever put into `active_connections_`, which has no field.
pub mod Counts
mod Tests
use mod_audio_stream.Common.{ℕ, ◌+◌, List, [], ◌∷◌, ◌++◌, length, ltb, if◌then◌else◌}

pub record Pool : Type 0 where
  -- idle_connections_, front first
  pub idle : List ℕ
  pub max_connections : ℕ
  pub total_connections : ℕ
  pub cache_hits : ℕ
  pub cache_misses : ℕ

unfoldable pub new_pool : ℕ → Pool
new_pool max = record {
  idle = [];
  max_connections = max;
  total_connections = 0;
  cache_hits = 0;
  cache_misses = 0;
}

-- `made` is the manager that make_shared makes, if one is needed.
unfoldable pub get_connection_manager : ℕ → Pool → ℕ × Pool
get_connection_manager made p = elim p.idle [
  | [] ↦ (
    made,
    record p { cache_misses = p.cache_misses + 1; total_connections = p.total_connections + 1 },
  )
  | first ∷ others ↦ (first, record p { idle = others; cache_hits = p.cache_hits + 1 })
]

unfoldable pub return_connection_manager : ℕ → Pool → Pool
return_connection_manager manager p =
    if ltb (length p.idle) p.max_connections then record p { idle = p.idle ++ manager ∷ [] } else p

unfoldable pub clear_idle_connections : Pool → Pool
clear_idle_connections p = record p { idle = [] }
