-- ===== src/ConnectionPool/Tests.antt =====
-- A pool of one idle manager, and the theorem about it.
use mod_audio_stream.Common.{[], ◌∷◌}
use mod_audio_stream.ConnectionPool.{new_pool}
use mod_audio_stream.ConnectionPool.Counts.{
  gets, returns, clears, use_pool, IsValid, use_pool-IsValid,
}

use_pool-IsValid_example :
    IsValid 1 3
      (use_pool (gets 1 ∷ returns 1 ∷ gets 2 ∷ returns 1 ∷ gets 3 ∷ clears ∷ []) (new_pool 1))
use_pool-IsValid_example =
    use_pool-IsValid (gets 1 ∷ returns 1 ∷ gets 2 ∷ returns 1 ∷ gets 3 ∷ clears ∷ []) 1
