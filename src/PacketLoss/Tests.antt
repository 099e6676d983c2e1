-- ===== src/PacketLoss/Tests.antt =====
-- Packets that are missing between two that came.
use mod_audio_stream.Common.{◌≡◌, [], ◌∷◌, arith}
use mod_audio_stream.PacketLoss.{new_recovery, detect_missing_packets}
use mod_audio_stream.PacketLoss.Missing.{detect_missing_packets-range}

detect_missing_packets-range_example :
    (detect_missing_packets "s1" 7 11 new_recovery).0 ≡ 8 ∷ 9 ∷ 10 ∷ []
detect_missing_packets-range_example =
    detect_missing_packets-range "s1" 7 11 new_recovery (omega arith) (omega arith)
