-- ===== src/ConnectionManager/Tests.antt =====
-- A manager with two servers, and the theorems about it.
use mod_audio_stream.Common.{◌≡◌, refl, true, false, List, [], ◌∷◌}
use mod_audio_stream.ConnectionManager.{
  ServerEndpoint, ConnectionContext, ReconnectionPolicy, Manager, new_context, fail_over,
  without_server, out_of_range, server, current_server, get_current_server, find_best_server,
}
use mod_audio_stream.ConnectionManager.Calls.{
  Call, creates, adds_server, fails_over, forces_reconnect, calls,
}
use mod_audio_stream.ConnectionManager.Failover.{
  IsBest, failover-removal_fault, find_best_server-IsBest,
}

abbrev policy : ReconnectionPolicy
policy = record {
  enable_reconnection = true;
  max_reconnect_attempts = 7;
  initial_delay_ms = 750;
  max_delay_ms = 20000;
  connection_timeout_ms = 8000;
  health_check_interval_ms = 20000;
  enable_circuit_breaker = true;
  circuit_breaker_threshold = 4;
  circuit_breaker_timeout_ms = 45000;
}

abbrev primary : ServerEndpoint
primary = record {
  url = "wss://a";
  hostname = "a";
  port = 443;
  use_ssl = true;
  priority = 1;
  is_healthy = false;
  failure_count = 3;
}

abbrev backup : ServerEndpoint
backup = record {
  url = "wss://b";
  hostname = "b";
  port = 443;
  use_ssl = true;
  priority = 2;
  is_healthy = true;
  failure_count = 0;
}

abbrev empty_manager : Manager
empty_manager = record { policy = policy; connections = [] }

abbrev script : List Call
script =
    creates "s1" (primary ∷ []) []
    ∷ adds_server "s1" backup
    ∷ fails_over "s1" "wss://b"
    ∷ forces_reconnect "s1"
    ∷ []

script_runs : get_current_server "s1" (calls script empty_manager) ≡ server backup
unfolding calls get_current_server
script_runs = refl

abbrev context : ConnectionContext
context = new_context "s1" (primary ∷ backup ∷ []) []

context-servers : context.servers ≡ primary ∷ backup ∷ []
unfolding new_context
context-servers = refl

failover-removal_fault_example :
    current_server (without_server "wss://b" (fail_over "wss://b" context).1).1 ≡ out_of_range
failover-removal_fault_example =
    failover-removal_fault "wss://b" context primary [] backup context-servers (refl, tt) refl

find_best_server-IsBest_example :
    IsBest (primary ∷ backup ∷ []) (find_best_server (primary ∷ backup ∷ []))
find_best_server-IsBest_example = find_best_server-IsBest (primary ∷ backup ∷ [])
