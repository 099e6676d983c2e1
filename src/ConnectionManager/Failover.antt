-- ===== src/ConnectionManager/Failover.antt =====
-- failover_to_server, remove_server and find_best_server of src/connection_manager.cpp on the
-- servers of one stream.
use text.Mathlib.Text.{◌==◌}
use mod_audio_stream.Common.{
  ℕ, suc, ◌+◌, ◌≡◌, ◌⊎◌, ◌∙◌, refl, ap, String, Bool, true, false, List, [], ◌∷◌, ◌++◌, Option,
  none, some, length, get_elem?, if◌then◌else◌, if-false, inl, inr, Bool-cases, arith, All,
}
use mod_audio_stream.ConnectionManager.{
  ServerEndpoint, ConnectionContext, without_server, remove_url, index_of, fail_over,
  connection_connecting, CurrentServer, out_of_range, no_server, server, entry_at, current_server,
  first_healthy, find_best_server,
}

-- No server of the list has that address.
abbrev pub NoneHas : String → List ServerEndpoint → Type 0
NoneHas url = All (λ s. (s.url == url) ≡ false)

-- `i` is the position of a server of that address, or `o` is `none` and there is no such server.
abbrev Finds : String → List ServerEndpoint → Option ℕ → Type 0
Finds url r none = NoneHas url r
Finds url r (some i) = (s : ServerEndpoint) × (get_elem? r i ≡ some s) × ((s.url == url) ≡ true)

Finds-later :
    (url : String) (s : ServerEndpoint) (r : List ServerEndpoint) (o : Option ℕ)
    → (s.url == url) ≡ false
    → Finds url r o
    → Finds url (s ∷ r) (elim o [ none ↦ none | some i ↦ some (i + 1) ])
Finds-later url s r none e h = (e, h)
Finds-later url s r (some i) e (t, k, l) =
    (t, ap (get_elem? (s ∷ r)) {x = i + 1} {y = suc i} (omega arith) ∙ k, l)

index_of-Finds : (url : String) (r : List ServerEndpoint) → Finds url r (index_of url r)
index_of-Finds url [] = tt
index_of-Finds url (s ∷ r) = elim (Bool-cases (s.url == url)) [
  | inl e ↦ rw (e, index_of) (s, refl, e)
  | inr e ↦ rw (e, index_of) (Finds-later url s r (index_of url r) e (index_of-Finds url r))
]

-- The outcome of failover_to_server.
abbrev pub FailsOver : String → ConnectionContext → Bool × ConnectionContext → Type 0
FailsOver url c r =
    ((s : ServerEndpoint) × (r.0 ≡ true)
      × (current_server r.1 ≡ server s)
      × ((s.url == url) ≡ true)
      × (r.1.current_state ≡ connection_connecting))
    ⊎ ((r.0 ≡ false) × (r.1 ≡ c) × NoneHas url c.servers)

current_of-at :
    (servers : List ServerEndpoint) (i : ℕ) (s : ServerEndpoint)
    → get_elem? servers i ≡ some s
    → elim servers as (λ r. CurrentServer) [ [] ↦ no_server | t ∷ r ↦ entry_at i (t ∷ r) ]
      ≡ server s
current_of-at [] i s e = absurd cc
current_of-at (t ∷ r) i s e =
    ap (λ o. elim o as (λ o. CurrentServer) [ none ↦ out_of_range | some s ↦ server s ]) e

current_server-at :
    (c : ConnectionContext) (s : ServerEndpoint)
    → get_elem? c.servers c.current_server_index ≡ some s
    → current_server c ≡ server s
unfolding current_server
current_server-at c s e = current_of-at c.servers c.current_server_index s e

outcome :
    (url : String) (c : ConnectionContext) (o : Option ℕ)
    → Finds url c.servers o
    → FailsOver url c (elim o as (λ o. Bool × ConnectionContext) [
      | none ↦ (false, c)
      | some i ↦
          (true, record c { current_server_index = i; current_state = connection_connecting })
    ])
outcome url c none h = inr (refl, refl, h)
outcome url c (some i) (s, k, l) = inl (
  s,
  refl,
  current_server-at (record c { current_server_index = i; current_state = connection_connecting }) s
      k,
  l,
  refl,
)

-- failover_to_server either returns true, sets the state to connecting and leaves a current server
-- that has the address, or returns false, leaves the context as it was, and no server of the stream
-- has the address.
pub fail_over-FailsOver : (url : String) (c : ConnectionContext) → FailsOver url c (fail_over url c)
unfolding fail_over
fail_over-FailsOver url c = outcome url c (index_of url c.servers) (index_of-Finds url c.servers)

index_of-last :
    (url : String) (front : List ServerEndpoint) (last : ServerEndpoint)
    → NoneHas url front
    → (last.url == url) ≡ true
    → index_of url (front ++ last ∷ []) ≡ some (length front)
index_of-last url [] last h e = rw e refl
index_of-last url (s ∷ r) last h e =
    if-false _ _ h.0 ∙ rw (index_of-last url r last h.1 e) (ap some (omega arith))

remove_url-last :
    (url : String) (front : List ServerEndpoint) (last : ServerEndpoint)
    → NoneHas url front
    → (last.url == url) ≡ true
    → remove_url url (front ++ last ∷ []) ≡ front
remove_url-last url [] last h e = rw e refl
remove_url-last url (s ∷ r) last h e =
    if-false _ _ h.0 ∙ ap (λ t. s ∷ t) (remove_url-last url r last h.1 e)

entry_at-end : (r : List ServerEndpoint) → entry_at (length r) r ≡ out_of_range
entry_at-end [] = refl
entry_at-end (s ∷ r) = entry_at-end r

moved : ConnectionContext → Option ℕ → Bool × ConnectionContext
moved c o = elim o [
  | none ↦ (false, c)
  | some i ↦ (true, record c { current_server_index = i; current_state = connection_connecting })
]

-- A stream that fails over to the last of two servers or more, whose address no other has, and from
-- which this server is then removed, keeps the old index: get_current_server reads beyond the end
-- of the servers.
pub failover-removal_fault :
    (url : String) (c : ConnectionContext) (first : ServerEndpoint) (front : List ServerEndpoint)
    (last : ServerEndpoint)
    → c.servers ≡ first ∷ front ++ last ∷ []
    → NoneHas url (first ∷ front)
    → (last.url == url) ≡ true
    → current_server (without_server url (fail_over url c).1).1 ≡ out_of_range
unfolding fail_over current_server moved
failover-removal_fault url c first front last e h k =
    let found : index_of url c.servers ≡ some (length (first ∷ front)) =
      ap (index_of url) e ∙ index_of-last url (first ∷ front) last h k in
    let left : remove_url url c.servers ≡ first ∷ front =
      ap (remove_url url) e ∙ remove_url-last url (first ∷ front) last h k in
    ap (λ o. current_server (without_server url (moved c o).1).1) found
    ∙ ap
        (λ r. elim r as (λ r. CurrentServer) [
          | [] ↦ no_server
          | s ∷ t ↦ entry_at (length (first ∷ front)) (s ∷ t)
        ])
        left
    ∙ entry_at-end (first ∷ front)

abbrev pub NoneHealthy : List ServerEndpoint → Type 0
NoneHealthy = All (λ s. s.is_healthy ≡ false)

-- The position is that of the first healthy server, behind none that is healthy, or no server is
-- healthy and it is that of the first one.
abbrev pub IsBest : List ServerEndpoint → ℕ → Type 0
IsBest r i =
    ((before : List ServerEndpoint) × (s : ServerEndpoint) × (after : List ServerEndpoint) × (r
        ≡ before ++ s ∷ after)
      × (i ≡ length before)
      × (s.is_healthy ≡ true)
      × NoneHealthy before)
    ⊎ (NoneHealthy r × (i ≡ 0))

abbrev FindsHealthy : List ServerEndpoint → Option ℕ → Type 0
FindsHealthy r none = NoneHealthy r
FindsHealthy r (some i) =
    (before : List ServerEndpoint) × (s : ServerEndpoint) × (after : List ServerEndpoint) × (r
      ≡ before ++ s ∷ after)
    × (i ≡ length before)
    × (s.is_healthy ≡ true)
    × NoneHealthy before

FindsHealthy-here :
    (b : Bool) (s : ServerEndpoint) (r : List ServerEndpoint) (o : Option ℕ)
    → s.is_healthy ≡ b
    → FindsHealthy r o
    → FindsHealthy (s ∷ r) (if b then some 0 else elim o [ none ↦ none | some i ↦ some (i + 1) ])
FindsHealthy-here true s r o e h = ([], s, r, refl, refl, e, tt)
FindsHealthy-here false s r none e h = (e, h)
FindsHealthy-here false s r (some i) e (before, t, after, at, k, healthy, others) =
    (s ∷ before, t, after, ap (λ l. s ∷ l) at, omega (arith, k), healthy, (e, others))

first_healthy-FindsHealthy : (r : List ServerEndpoint) → FindsHealthy r (first_healthy r)
first_healthy-FindsHealthy [] = tt
first_healthy-FindsHealthy (s ∷ r) =
    FindsHealthy-here s.is_healthy s r (first_healthy r) refl (first_healthy-FindsHealthy r)

or_first-IsBest :
    (r : List ServerEndpoint) (o : Option ℕ)
    → FindsHealthy r o
    → IsBest r (elim o [ none ↦ 0 | some i ↦ i ])
or_first-IsBest r none h = inr (h, refl)
or_first-IsBest r (some i) h = inl h

-- find_best_server returns the index of the first healthy server, in front of which no server is
-- healthy, or the first index, 0, if no server of the list is healthy.
pub find_best_server-IsBest : (r : List ServerEndpoint) → IsBest r (find_best_server r)
unfolding find_best_server
find_best_server-IsBest r = or_first-IsBest r (first_healthy r) (first_healthy-FindsHealthy r)
