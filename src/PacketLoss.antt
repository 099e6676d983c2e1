-- ===== src/PacketLoss.antt =====
-- class PacketLossRecovery of src/adaptive_buffer.hpp and src/adaptive_buffer.cpp.
pub mod Missing
mod Tests
use mod_audio_stream.Common.{
  ℕ, zero, suc, ◌+◌, ◌/◌, ◌%◌, List, [], ◌∷◌, ◌++◌, String, Bool, true, false, Option, none, some,
  length, get_or, ltb, u8, u32, u64, max, if◌then◌else◌,
}
use mod_audio_stream.Common.Maps.{find, assign}

pub data RecoveryStrategy : Type 0 where
  recovery_none recovery_retransmit recovery_fec recovery_interpolation recovery_silence :
      RecoveryStrategy

-- The recovery rate is never set.
pub record RecoveryStats : Type 0 where
  pub packets_lost : ℕ
  pub packets_recovered : ℕ
  pub retransmissions_requested : ℕ
  pub interpolations_performed : ℕ

pub record PacketLossRecovery : Type 0 where
  pub strategy : RecoveryStrategy
  pub recovery_stats : List (String × RecoveryStats)

abbrev pub new_recovery : PacketLossRecovery
new_recovery = record { strategy = recovery_none; recovery_stats = [] }

abbrev pub initialize : RecoveryStrategy → PacketLossRecovery → PacketLossRecovery
initialize strategy r = record r { strategy = strategy }

abbrev pub no_stats : RecoveryStats
no_stats = record {
  packets_lost = 0;
  packets_recovered = 0;
  retransmissions_requested = 0;
  interpolations_performed = 0;
}

-- get_recovery_statistics, and what recovery_stats_[stream_id] finds or makes.
abbrev pub stats_of : String → PacketLossRecovery → RecoveryStats
stats_of id r = elim (find id r.recovery_stats) [ none ↦ no_stats | some s ↦ s ]

abbrev pub keep_stats : String → RecoveryStats → PacketLossRecovery → PacketLossRecovery
keep_stats id s r = record r { recovery_stats = assign id s r.recovery_stats }

-- The loop, of at most `rounds` rounds, from `seq` on.
unfoldable pub missing_loop : ℕ → ℕ → ℕ → List ℕ
missing_loop zero seq current = []
missing_loop (suc rounds) seq current =
    let rest = missing_loop rounds (u32 (seq + 1)) current in
    if ltb seq current then seq ∷ rest else []

-- Each round counts up to `current`, so it has no more rounds.
unfoldable pub detect_missing_packets :
    String → ℕ → ℕ → PacketLossRecovery → List ℕ × PacketLossRecovery
unfolding missing_loop
detect_missing_packets id last current r =
    let missing = missing_loop current (u32 (last + 1)) current in
    let s = stats_of id r in
    (missing, keep_stats id (record s { packets_lost = u64 (s.packets_lost + length missing) }) r)

abbrev pub is_retransmit : RecoveryStrategy → Bool
is_retransmit recovery_retransmit = true
is_retransmit _ = false

abbrev pub is_interpolation : RecoveryStrategy → Bool
is_interpolation recovery_interpolation = true
is_interpolation _ = false

unfoldable pub request_retransmission :
    String → List ℕ → PacketLossRecovery → Bool × PacketLossRecovery
request_retransmission id missing r =
    let s = stats_of id r in
    (
      is_retransmit r.strategy,
      keep_stats id
          (record s {
            retransmissions_requested = u64 (s.retransmissions_requested + length missing);
          })
          r,
    )

-- The loop from index `i`, for `n` bytes. Beyond its end a frame counts as 0.
unfoldable pub midpoint_loop : ℕ → ℕ → List ℕ → List ℕ → List ℕ
midpoint_loop zero i previous following = []
midpoint_loop (suc n) i previous following =
    u8 ((get_or previous i 0 + get_or following i 0) / 2)
    ∷ midpoint_loop n (i + 1) previous following

-- `none` is `return false`, and the frame is left as it was.
unfoldable pub interpolate_missing_audio :
    String → List ℕ → List ℕ → PacketLossRecovery → Option (List ℕ) × PacketLossRecovery
unfolding midpoint_loop
interpolate_missing_audio id previous following r =
    let s = stats_of id r in
    if is_interpolation r.strategy
    then (
      some (midpoint_loop (max (length previous) (length following)) 0 previous following),
      keep_stats id
          (record s {
            interpolations_performed = u64 (s.interpolations_performed + 1);
            packets_recovered = u64 (s.packets_recovered + 1);
          })
          r,
    )
    else (none, r)
