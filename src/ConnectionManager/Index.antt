-- ===== src/ConnectionManager/Index.antt =====
-- The index of the current server stays in range while no server is removed
-- (src/connection_manager.cpp).
use text.Mathlib.Text.{◌==◌}
use mod_audio_stream.Common.{
  ℕ, zero, suc, ◌+◌, ◌<◌, ◌≡◌, ◌≢◌, ◌⊎◌, refl, String, Bool, true, false, List, [], ◌∷◌, Option,
  none, some, length, length-append, if◌then◌else◌, inl, inr, Option-cases, arith,
}
use mod_audio_stream.Common.Maps.{find, assign, erase}
use mod_audio_stream.ConnectionManager.{
  ServerEndpoint, ConnectionContext, Manager, new_context, create_connection, close_connection,
  change, reconnecting, with_server, with_health, with_quality, mark_health, index_of, fail_over,
  connection_connecting, CurrentServer, out_of_range, no_server, entry_at, current_server,
  get_current_server,
}
use mod_audio_stream.ConnectionManager.Calls.{
  Call, creates, closes, forces_reconnect, adds_server, removes_server, updates_health,
  sets_quality, fails_over, call, calls, RemovesNone,
}

-- The index is the initial one, or that of a server.
abbrev pub IndexFits : ConnectionContext → Type 0
IndexFits c = (c.current_server_index ≡ 0) ⊎ (c.current_server_index < length c.servers)

abbrev pub AllFit : List (String × ConnectionContext) → Type 0
AllFit [] = Unit
AllFit ((k, c) ∷ r) = IndexFits c × AllFit r

find-AllFit :
    (id : String) (r : List (String × ConnectionContext)) (c : ConnectionContext)
    → AllFit r
    → find id r ≡ some c
    → IndexFits c
find-AllFit id [] c h e = absurd cc
find-AllFit id ((k, d) ∷ r) c h e = ground (arith, find-AllFit id r c h.1, h.0)

assign-AllFit :
    (id : String) (c : ConnectionContext) (r : List (String × ConnectionContext))
    → IndexFits c
    → AllFit r
    → AllFit (assign id c r)
assign-AllFit id c [] k h = (k, tt)
assign-AllFit id c ((j, d) ∷ r) k h = ground (arith, assign-AllFit id c r k h.1, h, k)

erase-AllFit :
    (id : String) (r : List (String × ConnectionContext)) → AllFit r → AllFit (erase id r)
erase-AllFit id [] h = tt
erase-AllFit id ((j, d) ∷ r) h = ground (arith, erase-AllFit id r h.1, h)

length-mark_health :
    (url : String) (healthy : Bool) (r : List ServerEndpoint)
    → length (mark_health url healthy r) ≡ length r
length-mark_health url healthy [] = refl
length-mark_health url healthy (s ∷ r) = ground (arith, length-mark_health url healthy r)

-- A position that was found is one of the first `n`.
abbrev pub Within : Option ℕ → ℕ → Type 0
Within none n = Unit
Within (some i) n = i < n

Within-suc :
    (o : Option ℕ) (n : ℕ)
    → Within o n
    → Within (elim o [ none ↦ none | some i ↦ some (i + 1) ]) (suc n)
Within-suc none n h = tt
Within-suc (some i) n h = omega arith

if-Within :
    (b : Bool) (o : Option ℕ) (n : ℕ) → Within o (suc n) → Within (if b then some 0 else o) (suc n)
if-Within true o n h = omega arith
if-Within false o n h = h

pub index_of-Within : (url : String) (r : List ServerEndpoint) → Within (index_of url r) (length r)
index_of-Within url [] = tt
index_of-Within url (s ∷ r) =
    if-Within (s.url == url) _ (length r)
      (Within-suc (index_of url r) (length r) (index_of-Within url r))

moved-IndexFits :
    (c : ConnectionContext) (o : Option ℕ)
    → IndexFits c
    → Within o (length c.servers)
    → IndexFits
        (elim o as (λ o. Bool × ConnectionContext) [
          | none ↦ (false, c)
          | some i ↦
              (true, record c { current_server_index = i; current_state = connection_connecting })
        ]).1
moved-IndexFits c none h w = h
moved-IndexFits c (some i) h w = inr w

fail_over-IndexFits :
    (url : String) (c : ConnectionContext) → IndexFits c → IndexFits (fail_over url c).1
unfolding fail_over
fail_over-IndexFits url c h =
    moved-IndexFits c (index_of url c.servers) h (index_of-Within url c.servers)

change-AllFit :
    (id : String) (f : ConnectionContext → Bool × ConnectionContext) (m : Manager)
    → ((c : ConnectionContext) → IndexFits c → IndexFits (f c).1)
    → AllFit m.connections
    → AllFit (change id f m).1.connections
unfolding change
change-AllFit id f m k h = elim (Option-cases (find id m.connections)) [
  | inl e ↦ rw (e, change) h
  | inr (c, e) ↦
      rw (e, change)
        (assign-AllFit id (f c).1 m.connections (k c (find-AllFit id m.connections c h e)) h)
]

close-AllFit :
    (id : String) (m : Manager)
    → AllFit m.connections
    → AllFit (close_connection id m).1.connections
unfolding close_connection
close-AllFit id m h = elim (Option-cases (find id m.connections)) [
  | inl e ↦ rw (e, close_connection) h
  | inr (c, e) ↦ rw (e, close_connection) (erase-AllFit id m.connections h)
]

with_server-IndexFits :
    (s : ServerEndpoint) (c : ConnectionContext) → IndexFits c → IndexFits (with_server s c).1
with_server-IndexFits s c (inl e) = inl e
with_server-IndexFits s c (inr h) = inr (omega (arith, length-append c.servers (s ∷ [])))

with_health-IndexFits :
    (url : String) (healthy : Bool) (c : ConnectionContext)
    → IndexFits c
    → IndexFits (with_health url healthy c).1
with_health-IndexFits url healthy c (inl e) = inl e
with_health-IndexFits url healthy c (inr h) =
    inr (omega (arith, length-mark_health url healthy c.servers))

call-AllFit :
    (k : Call) (m : Manager)
    → RemovesNone (k ∷ [])
    → AllFit m.connections
    → AllFit (call k m).1.connections
unfolding call create_connection new_context
call-AllFit (creates id servers params) m n h =
    assign-AllFit id (new_context id servers params) m.connections (inl refl) h
call-AllFit (closes id) m n h = close-AllFit id m h
call-AllFit (forces_reconnect id) m n h = change-AllFit id reconnecting m (λ c k. k) h
call-AllFit (adds_server id s) m n h =
    change-AllFit id (with_server s) m (with_server-IndexFits s) h
call-AllFit (removes_server id url) m n h = absurd n
call-AllFit (updates_health id url healthy) m n h =
    change-AllFit id (with_health url healthy) m (with_health-IndexFits url healthy) h
call-AllFit (sets_quality id enabled) m n h = change-AllFit id (with_quality enabled) m (λ c k. k) h
call-AllFit (fails_over id url) m n h =
    change-AllFit id (fail_over url) m (fail_over-IndexFits url) h

RemovesNone-split :
    (k : Call) (ks : List Call) → RemovesNone (k ∷ ks) → RemovesNone (k ∷ []) × RemovesNone ks
RemovesNone-split (creates id servers params) ks n = (tt, n)
RemovesNone-split (closes id) ks n = (tt, n)
RemovesNone-split (forces_reconnect id) ks n = (tt, n)
RemovesNone-split (adds_server id s) ks n = (tt, n)
RemovesNone-split (removes_server id url) ks n = absurd n
RemovesNone-split (updates_health id url healthy) ks n = (tt, n)
RemovesNone-split (sets_quality id enabled) ks n = (tt, n)
RemovesNone-split (fails_over id url) ks n = (tt, n)

calls-AllFit :
    (ks : List Call) (m : Manager)
    → RemovesNone ks
    → AllFit m.connections
    → AllFit (calls ks m).connections
unfolding calls
calls-AllFit [] m n h = h
calls-AllFit (k ∷ ks) m n h =
    let (one, rest) = RemovesNone-split k ks n in
    calls-AllFit ks (call k m).1 rest (call-AllFit k m one h)

entry_at-in_range : (i : ℕ) (r : List ServerEndpoint) → i < length r → entry_at i r ≢ out_of_range
entry_at-in_range i [] h = absurd (omega arith)
entry_at-in_range zero (s ∷ r) h = λ e. absurd cc
entry_at-in_range (suc i) (s ∷ r) h = entry_at-in_range i r (omega arith)

current_server-in_range :
    (servers : List ServerEndpoint) (i : ℕ)
    → (i ≡ 0) ⊎ (i < length servers)
    → elim servers as (λ r. CurrentServer) [ [] ↦ no_server | s ∷ r ↦ entry_at i (s ∷ r) ]
      ≢ out_of_range
current_server-in_range [] i h = λ e. absurd cc
current_server-in_range (s ∷ r) i (inl e) = entry_at-in_range i (s ∷ r) (omega arith)
current_server-in_range (s ∷ r) i (inr h) = entry_at-in_range i (s ∷ r) h

-- From a manager in which the index of each stream is 0 or that of one of its servers, after any
-- calls of create_connection, close_connection, force_reconnect, add_server, update_server_health,
-- set_adaptive_quality_enabled and failover_to_server, but none of remove_server,
-- get_current_server never reads beyond the servers of a stream.
pub get_current_server-in_range :
    (ks : List Call) (m : Manager) (id : String)
    → AllFit m.connections
    → RemovesNone ks
    → get_current_server id (calls ks m) ≢ out_of_range
unfolding get_current_server current_server
get_current_server-in_range ks m id h n =
    let all = calls-AllFit ks m n h in
    elim (Option-cases (find id (calls ks m).connections)) [
      | inl e ↦ rw (e, get_current_server) (λ e. absurd cc)
      | inr (c, e) ↦
          rw (e, get_current_server)
            (current_server-in_range c.servers c.current_server_index
              (find-AllFit id (calls ks m).connections c all e))
    ]
