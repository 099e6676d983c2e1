-- ===== src/ConnectionManager/Calls.antt =====
-- Sequences of calls on a manager (src/connection_manager.cpp).
use mod_audio_stream.Common.{String, Bool, List, [], ◌∷◌}
use mod_audio_stream.ConnectionManager.{
  ServerEndpoint, Manager, create_connection, close_connection, change, reconnecting, with_server,
  without_server, with_health, with_quality, fail_over,
}

pub data Call : Type 0 where
  creates : String → List ServerEndpoint → List (String × String) → Call
  closes : String → Call
  forces_reconnect : String → Call
  adds_server : String → ServerEndpoint → Call
  removes_server : String → String → Call
  updates_health : String → String → Bool → Call
  sets_quality : String → Bool → Call
  fails_over : String → String → Call

unfoldable pub call : Call → Manager → Bool × Manager
unfolding create_connection close_connection change fail_over
call (creates id servers params) m = create_connection id servers params m
call (closes id) m = close_connection id m
call (forces_reconnect id) m = change id reconnecting m
call (adds_server id s) m = change id (with_server s) m
call (removes_server id url) m = change id (without_server url) m
call (updates_health id url healthy) m = change id (with_health url healthy) m
call (sets_quality id enabled) m = change id (with_quality enabled) m
call (fails_over id url) m = change id (fail_over url) m

unfoldable pub calls : List Call → Manager → Manager
unfolding call
calls [] m = m
calls (k ∷ ks) m = calls ks (call k m).1

-- No remove_server among them.
abbrev pub RemovesNone : List Call → Type 0
RemovesNone [] = Unit
RemovesNone (removes_server id url ∷ ks) = ⊥
RemovesNone (_ ∷ ks) = RemovesNone ks
