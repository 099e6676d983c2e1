-- ===== src/ConnectionPool/Counts.antt =====
-- The size and the statistics of the pool of src/connection_manager.cpp.
use mod_audio_stream.Common.{ℕ, ◌+◌, ◌≤◌, ◌≡◌, refl, List, [], ◌∷◌, length, length-append, arith}
use mod_audio_stream.ConnectionPool.{
  Pool, new_pool, get_connection_manager, return_connection_manager, clear_idle_connections,
}

pub data Use : Type 0 where
  gets : ℕ → Use
  returns : ℕ → Use
  clears : Use

unfoldable pub use_pool : List Use → Pool → Pool
unfolding get_connection_manager return_connection_manager clear_idle_connections
use_pool [] p = p
use_pool (gets made ∷ us) p = use_pool us (get_connection_manager made p).1
use_pool (returns m ∷ us) p = use_pool us (return_connection_manager m p)
use_pool (clears ∷ us) p = use_pool us (clear_idle_connections p)

-- How many managers were asked for.
abbrev pub requests : List Use → ℕ
requests [] = 0
requests (gets made ∷ us) = requests us + 1
requests (returns m ∷ us) = requests us
requests (clears ∷ us) = requests us

-- The pool after `n` requests.
pub record IsValid (max n : ℕ) (p : Pool) : Type 0 where
  pub bound : p.max_connections ≡ max
  pub within : length p.idle ≤ max
  pub answered : p.cache_hits + p.cache_misses ≡ n
  pub made : p.total_connections ≡ p.cache_misses

get-IsValid :
    (max n i : ℕ) (p : Pool) → IsValid max n p → IsValid max (n + 1) (get_connection_manager i p).1
unfolding get_connection_manager
get-IsValid max n i p v = ground (arith, v)

return-IsValid :
    (max n i : ℕ) (p : Pool) → IsValid max n p → IsValid max n (return_connection_manager i p)
unfolding return_connection_manager
return-IsValid max n i p v = ground (arith, v, length-append p.idle (i ∷ []))

clear-IsValid : (max n : ℕ) (p : Pool) → IsValid max n p → IsValid max n (clear_idle_connections p)
unfolding clear_idle_connections
clear-IsValid max n p v = ground (arith, v)

use_pool-IsValid_from :
    (us : List Use) (max n k : ℕ) (p : Pool)
    → IsValid max n p
    → k ≡ requests us + n
    → IsValid max k (use_pool us p)
unfolding use_pool
use_pool-IsValid_from [] max n k p v e = record {
  bound = v.bound;
  within = v.within;
  answered = omega (arith, v.answered);
  made = v.made;
}
use_pool-IsValid_from (gets i ∷ us) max n k p v e =
    use_pool-IsValid_from us max (n + 1) k (get_connection_manager i p).1 (get-IsValid max n i p v)
      (omega arith)
use_pool-IsValid_from (returns m ∷ us) max n k p v e =
    use_pool-IsValid_from us max n k (return_connection_manager m p) (return-IsValid max n m p v) e
use_pool-IsValid_from (clears ∷ us) max n k p v e =
    use_pool-IsValid_from us max n k (clear_idle_connections p) (clear-IsValid max n p v) e

-- After any sequence of requests, returns and clearings, a new pool keeps at most its maximal
-- number of idle managers, its hits and misses add up to the requests, and its connections are its
-- misses.
pub use_pool-IsValid :
    (us : List Use) (max : ℕ) → IsValid max (requests us) (use_pool us (new_pool max))
unfolding new_pool
use_pool-IsValid us max =
    use_pool-IsValid_from us max 0 (requests us) (new_pool max)
      (record { bound = refl; within = omega arith; answered = refl; made = refl }) (omega arith)
