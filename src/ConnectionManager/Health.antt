-- ===== src/ConnectionManager/Health.antt =====
-- get_system_health of src/connection_manager.cpp: the streams in each kind of state. The
-- averages, constants there, and the time of the check are left out.
use mod_audio_stream.Common.{ℕ, ◌+◌, ◌≡◌, refl, String, List, [], ◌∷◌, length, arith}
use mod_audio_stream.ConnectionManager.{
  ConnectionState, connection_connected, connection_ready, connection_failed, connection_degraded,
  ConnectionContext, Manager,
}

pub record SystemHealth : Type 0 where
  pub total_connections : ℕ
  pub healthy_connections : ℕ
  pub degraded_connections : ℕ
  pub failed_connections : ℕ

-- The switch of the loop.
abbrev pub tally : ConnectionState → SystemHealth → SystemHealth
tally connection_ready h = record h { healthy_connections = h.healthy_connections + 1 }
tally connection_connected h = record h { healthy_connections = h.healthy_connections + 1 }
tally connection_degraded h = record h { degraded_connections = h.degraded_connections + 1 }
tally connection_failed h = record h { failed_connections = h.failed_connections + 1 }
tally _ h = h

abbrev pub tally_all : List (String × ConnectionContext) → SystemHealth → SystemHealth
tally_all [] h = h
tally_all ((id, c) ∷ r) h = tally_all r (tally c.current_state h)

unfoldable pub get_system_health : Manager → SystemHealth
get_system_health m = tally_all m.connections (record {
  total_connections = length m.connections;
  healthy_connections = 0;
  degraded_connections = 0;
  failed_connections = 0;
})

-- The streams that connect, authenticate, reconnect, close or are disconnected.
abbrev pub unsettled : ConnectionState → ℕ
unsettled connection_ready = 0
unsettled connection_connected = 0
unsettled connection_degraded = 0
unsettled connection_failed = 0
unsettled _ = 1

abbrev pub unsettled_all : List (String × ConnectionContext) → ℕ
unsettled_all [] = 0
unsettled_all ((id, c) ∷ r) = unsettled c.current_state + unsettled_all r

abbrev sum : SystemHealth → ℕ
sum h = h.healthy_connections + h.degraded_connections + h.failed_connections

sum-tally : (s : ConnectionState) (h : SystemHealth) → sum (tally s h) + unsettled s ≡ sum h + 1
sum-tally s h = ground arith

total-tally :
    (s : ConnectionState) (h : SystemHealth) → (tally s h).total_connections ≡ h.total_connections
total-tally s h = ground arith

sum-tally_all :
    (r : List (String × ConnectionContext)) (h : SystemHealth)
    → sum (tally_all r h) + unsettled_all r ≡ sum h + length r
sum-tally_all [] h = omega arith
sum-tally_all ((id, c) ∷ r) h =
    omega (arith, sum-tally_all r (tally c.current_state h), sum-tally c.current_state h)

total-tally_all :
    (r : List (String × ConnectionContext)) (h : SystemHealth)
    → (tally_all r h).total_connections ≡ h.total_connections
total-tally_all [] h = refl
total-tally_all ((id, c) ∷ r) h =
    omega (arith, total-tally_all r (tally c.current_state h), total-tally c.current_state h)

-- The healthy, the degraded, the failed and the unsettled streams make up the total.
abbrev pub AddsUp : SystemHealth → ℕ → Type 0
AddsUp h others =
    h.healthy_connections + h.degraded_connections + h.failed_connections + others
    ≡ h.total_connections

-- The healthy, degraded and failed streams that get_system_health counts, with those in any other
-- state, add up to the total that it reports.
pub get_system_health-AddsUp :
    (m : Manager) → AddsUp (get_system_health m) (unsettled_all m.connections)
unfolding get_system_health
get_system_health-AddsUp m =
    let h : SystemHealth = record {
      total_connections = length m.connections;
      healthy_connections = 0;
      degraded_connections = 0;
      failed_connections = 0;
    } in
    omega (arith, sum-tally_all m.connections h, total-tally_all m.connections h)
