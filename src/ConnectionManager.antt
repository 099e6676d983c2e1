-- ===== src/ConnectionManager.antt =====
-- The class `ConnectionManager` of src/connection_manager.hpp and src/connection_manager.cpp: the
-- servers and the state of each stream. Times, latencies and other measurements, which no operation
-- reads, have no field; the methods whose bodies are empty have no definition.
pub mod Calls
pub mod Index
pub mod Failover
pub mod Health
mod Tests
use text.Mathlib.Text.{◌==◌}
use mod_audio_stream.Common.{
  ℕ, ◌+◌, String, Bool, true, false, ◌&&◌, List, [], ◌∷◌, ◌++◌, Option, none, some, length, ltb,
  get_elem?, if◌then◌else◌,
}
use mod_audio_stream.Common.Maps.{find, assign, erase}

-- connection_state_t
pub data ConnectionState : Type 0 where
  connection_disconnected connection_connecting connection_connected : ConnectionState
  connection_authenticating connection_ready connection_reconnecting : ConnectionState
  connection_failed connection_degraded connection_closing : ConnectionState

-- circuit_breaker_state_t
pub data CircuitState : Type 0 where
  circuit_closed circuit_open circuit_half_open : CircuitState

-- server_endpoint_t
pub record ServerEndpoint : Type 0 where
  pub url : String
  pub hostname : String
  pub port : ℕ
  pub use_ssl : Bool
  pub priority : ℕ
  pub is_healthy : Bool
  pub failure_count : ℕ

-- reconnection_policy_t
pub record ReconnectionPolicy : Type 0 where
  pub enable_reconnection : Bool
  pub max_reconnect_attempts : ℕ
  pub initial_delay_ms : ℕ
  pub max_delay_ms : ℕ
  pub connection_timeout_ms : ℕ
  pub health_check_interval_ms : ℕ
  pub enable_circuit_breaker : Bool
  pub circuit_breaker_threshold : ℕ
  pub circuit_breaker_timeout_ms : ℕ

pub record ConnectionContext : Type 0 where
  pub stream_id : String
  pub servers : List ServerEndpoint
  pub connection_params : List (String × String)
  pub current_state : ConnectionState
  pub reconnect_attempts : ℕ
  pub circuit_state : CircuitState
  pub consecutive_failures : ℕ
  pub current_server_index : ℕ
  pub adaptive_quality_enabled : Bool
  pub should_reconnect : Bool

-- `connections_` has at most one entry for a key.
pub record Manager : Type 0 where
  pub policy : ReconnectionPolicy
  pub connections : List (String × ConnectionContext)

-- What create_connection puts into the map.
unfoldable pub new_context :
    String → List ServerEndpoint → List (String × String) → ConnectionContext
new_context id servers params = record {
  stream_id = id;
  servers = servers;
  connection_params = params;
  current_state = connection_disconnected;
  reconnect_attempts = 0;
  circuit_state = circuit_closed;
  consecutive_failures = 0;
  current_server_index = 0;
  adaptive_quality_enabled = true;
  should_reconnect = false;
}

unfoldable pub create_connection :
    String → List ServerEndpoint → List (String × String) → Manager → Bool × Manager
unfolding new_context
create_connection id servers params m =
    (true, record m { connections = assign id (new_context id servers params) m.connections })

unfoldable pub close_connection : String → Manager → Bool × Manager
close_connection id m = elim (find id m.connections) [
  | none ↦ (false, m)
  | some c ↦ (true, record m { connections = erase id m.connections })
]

-- The other operations look a stream up and change its context in place; `false` if there is none.
unfoldable pub change :
    String → (ConnectionContext → Bool × ConnectionContext) → Manager → Bool × Manager
change id f m = elim (find id m.connections) [
  | none ↦ (false, m)
  | some c ↦ ((f c).0, record m { connections = assign id (f c).1 m.connections })
]

abbrev pub reconnecting : ConnectionContext → Bool × ConnectionContext
reconnecting c =
    (true, record c { current_state = connection_reconnecting; should_reconnect = true })

abbrev pub with_server : ServerEndpoint → ConnectionContext → Bool × ConnectionContext
with_server s c = (true, record c { servers = c.servers ++ s ∷ [] })

-- std::remove_if by the address.
abbrev pub remove_url : String → List ServerEndpoint → List ServerEndpoint
remove_url url [] = []
remove_url url (s ∷ r) = let rest = remove_url url r in if s.url == url then rest else s ∷ rest

abbrev pub without_server : String → ConnectionContext → Bool × ConnectionContext
without_server url c = (true, record c { servers = remove_url url c.servers })

-- The first server of that address is marked.
abbrev pub mark_health : String → Bool → List ServerEndpoint → List ServerEndpoint
mark_health url healthy [] = []
mark_health url healthy (s ∷ r) =
    let rest = mark_health url healthy r in
    if s.url == url then record s { is_healthy = healthy } ∷ r else s ∷ rest

abbrev pub with_health : String → Bool → ConnectionContext → Bool × ConnectionContext
with_health url healthy c = (true, record c { servers = mark_health url healthy c.servers })

abbrev pub with_quality : Bool → ConnectionContext → Bool × ConnectionContext
with_quality enabled c = (true, record c { adaptive_quality_enabled = enabled })

-- The position of the first server of that address.
abbrev pub index_of : String → List ServerEndpoint → Option ℕ
index_of url [] = none
index_of url (s ∷ r) =
    let rest = index_of url r in
    if s.url == url then some 0 else elim rest [ none ↦ none | some i ↦ some (i + 1) ]

unfoldable pub fail_over : String → ConnectionContext → Bool × ConnectionContext
fail_over url c = elim (index_of url c.servers) [
  | none ↦ (false, c)
  | some i ↦ (true, record c { current_server_index = i; current_state = connection_connecting })
]

-- The server that is asked for; `out_of_range` is an access beyond the end of the vector.
pub data CurrentServer : Type 0 where
  no_server out_of_range : CurrentServer
  server : ServerEndpoint → CurrentServer

abbrev pub entry_at : ℕ → List ServerEndpoint → CurrentServer
entry_at i servers = elim (get_elem? servers i) [ none ↦ out_of_range | some s ↦ server s ]

unfoldable pub current_server : ConnectionContext → CurrentServer
current_server c = elim c.servers [
  | [] ↦ no_server
  | s ∷ r ↦ entry_at c.current_server_index (s ∷ r)
]

unfoldable pub get_current_server : String → Manager → CurrentServer
unfolding current_server
get_current_server id m = elim (find id m.connections) [
  | none ↦ no_server
  | some c ↦ current_server c
]

-- The first healthy server, or the first one.
abbrev pub first_healthy : List ServerEndpoint → Option ℕ
first_healthy [] = none
first_healthy (s ∷ r) =
    let rest = first_healthy r in
    if s.is_healthy then some 0 else elim rest [ none ↦ none | some i ↦ some (i + 1) ]

unfoldable pub find_best_server : List ServerEndpoint → ℕ
find_best_server servers = elim (first_healthy servers) [ none ↦ 0 | some i ↦ i ]

unfoldable pub should_attempt_reconnection : ReconnectionPolicy → ConnectionContext → Bool
should_attempt_reconnection p c =
    p.enable_reconnection && ltb c.reconnect_attempts p.max_reconnect_attempts
