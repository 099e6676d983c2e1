-- ===== src/MessageQueue/Urgent.antt =====
-- What is popped from the queue of src/adaptive_buffer.hpp.
use mathlib.Core.List.Perm
use mod_audio_stream.Common.{
  ℕ, ◌+◌, ◌≤◌, ◌++◌, length, ◌≡◌, refl, List, [], ◌∷◌, Bool, true, false, arith, All, ltb, ==_iff,
  if◌then◌else◌,
}
use mathlib.Core.List.{Perm}
use mod_audio_stream.MessageQueue.{Message, rank, is_below, select}

-- No message of the list is more urgent.
abbrev pub IsMostUrgent : Message → List Message → Type 0
IsMostUrgent m = All (λ (x : Message). is_below m x ≡ false)

is_below_self : (m : Message) → is_below m m ≡ false
is_below_self m = ground (arith, ==_iff (rank m.priority) (rank m.priority))

-- What is at least as urgent as something more urgent.
is_below_trans :
    (a b c : Message) → is_below a b ≡ false → is_below b c ≡ false → is_below a c ≡ false
is_below_trans a b c h k = ground (
  arith,
  ==_iff (rank a.priority) (rank b.priority),
  ==_iff (rank b.priority) (rank c.priority),
  ==_iff (rank a.priority) (rank c.priority),
)

is_below_asym : (a b : Message) → is_below a b ≡ true → is_below b a ≡ false
is_below_asym a b h =
    ground (
      arith,
      ==_iff (rank a.priority) (rank b.priority),
      ==_iff (rank b.priority) (rank a.priority),
    )

-- The more urgent of two messages is above both, and the two are kept.
winner_lem :
    (m x : Message) (b : Bool)
    → is_below m x ≡ b
    → (is_below (if b then x else m) m ≡ false) × (is_below (if b then x else m) x ≡ false)
winner_lem m x true e = (is_below_asym m x e, is_below_self x)
winner_lem m x false e = (is_below_self m, e)

winner-perm :
    (m x : Message) (b : Bool) (queue : List Message)
    → Perm ((if b then m else x) ∷ (if b then x else m) ∷ queue) (m ∷ x ∷ queue)
winner-perm m x true queue = Perm.refl (m ∷ x ∷ queue)
winner-perm m x false queue = Perm.swap m x queue

pub select-IsMostUrgent :
    (m : Message) (queue : List Message) → IsMostUrgent (select m queue).0 (m ∷ queue)
unfolding select
select-IsMostUrgent m [] = (is_below_self m, tt)
select-IsMostUrgent m (x ∷ queue) =
    let w = if is_below m x then x else m in
    let best = (select w queue).0 in
    let (over_m, over_x) = winner_lem m x (is_below m x) refl in
    let rest = select-IsMostUrgent w queue in
    (is_below_trans best w m rest.0 over_m, (is_below_trans best w x rest.0 over_x, rest.1))

pub select-perm :
    (m : Message) (queue : List Message)
    → Perm ((select m queue).0 ∷ (select m queue).1) (m ∷ queue)
unfolding select
select-perm m [] = Perm.refl (m ∷ [])
select-perm m (x ∷ queue) =
    let w = if is_below m x then x else m in
    let l = if is_below m x then m else x in
    let (best, others) = select w queue in
    Perm.trans (Perm.swap l best others)
      (Perm.trans (Perm.cons l (select-perm w queue)) (winner-perm m x (is_below m x) queue))

winner_holds {ℓ} :
    (P : Message → Type ℓ) (m x : Message) (b : Bool) → P m → P x → P (if b then x else m)
winner_holds P m x true h k = k
winner_holds P m x false h k = h

-- What holds of every message holds of the one that is popped.
pub select-All {ℓ} :
    (P : Message → Type ℓ) (m : Message) (queue : List Message)
    → All P (m ∷ queue)
    → P (select m queue).0
unfolding select
select-All P m [] h = h.0
select-All P m (x ∷ queue) h =
    select-All P (if is_below m x then x else m) queue
      (winner_holds P m x (is_below m x) h.0 h.1.0, h.1.1)

-- The messages of the list that are less urgent than high.
abbrev pub bulk_one : Message → ℕ
bulk_one m = if ltb 1 (rank m.priority) then 1 else 0

abbrev pub bulk : List Message → ℕ
bulk [] = 0
bulk (m ∷ queue) = bulk_one m + bulk queue

pub bulk-append : (xs ys : List Message) → bulk (xs ++ ys) ≡ bulk xs + bulk ys
bulk-append [] ys = omega arith
bulk-append (x ∷ xs) ys = omega (arith, bulk-append xs ys)

pub bulk-le-length : (queue : List Message) → bulk queue ≤ length queue
bulk-le-length [] = omega arith
bulk-le-length (m ∷ queue) = ground (arith, bulk-le-length queue)

winner-bulk :
    (m x : Message) (b : Bool)
    → bulk_one (if b then x else m) + bulk_one (if b then m else x) ≡ bulk_one m + bulk_one x
winner-bulk m x true = omega arith
winner-bulk m x false = omega arith

pub select-bulk :
    (m : Message) (queue : List Message)
    → (bulk_one (select m queue).0 + bulk (select m queue).1 ≡ bulk (m ∷ queue))
      × (length (select m queue).1 ≡ length queue)
unfolding select
select-bulk m [] = (refl, refl)
select-bulk m (x ∷ queue) =
    let w = if is_below m x then x else m in
    let (e, k) = select-bulk w queue in
    (omega (arith, e, winner-bulk m x (is_below m x)), omega (arith, k))
