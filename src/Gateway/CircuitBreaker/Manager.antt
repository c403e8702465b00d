-- ===== src/Gateway/CircuitBreaker/Manager.antt =====
-- The breakers of all services in one map: each follows its own history.
pub mod Saturated
use xira_net.Common.{
  ℕ, ◌≤◌, ◌≡◌, refl, ◌∙◌, inl, inr, Option, none, some, List, [], ◌∷◌, arith, get, get-insert, ◌==◌,
  ==_iff, u32_max, if◌then◌else◌, Bool-cases, Option-cases, nat_eq, text_eq,
}
use xira_net.Gateway.CircuitBreaker.{
  CircuitBreakerEntry, CircuitBreakerManager, ConfigState, fresh_entry, allow, succeed, fail, new,
  allow_request, clamped_config, record_success, record_failure, entry_or_insert,
}
use xira_net.Gateway.CircuitBreaker.Invariant.{
  Inv, IsClamped, fresh-Inv, allow-Inv, succeed-Inv, fail-Inv,
}
use xira_net.Gateway.CircuitBreaker.Recovery.{Event, allows, succeeds, fails}

-- A call for a service: its time, the service and what is called.
pub record Call : Type 0 where
  pub now : ℕ
  pub id : ℕ
  pub event : Event

call_in : Event → CircuitBreakerManager → ℕ → ℕ → CircuitBreakerManager
call_in allows m now id = (allow_request m now id).0
call_in succeeds m now id = record_success m now id
call_in fails m now id = record_failure m now id

pub call : CircuitBreakerManager → Call → CircuitBreakerManager
unfolding call_in
call m k = call_in k.event m k.now k.id

pub calls : CircuitBreakerManager → List Call → CircuitBreakerManager
calls m [] = m
calls m (k ∷ ks) = calls (call m k) ks

-- The same call on the entry of one service, which may be absent.
pub or_fresh : ℕ → Option CircuitBreakerEntry → CircuitBreakerEntry
or_fresh now none = fresh_entry now
or_fresh now (some e) = e

pub entry_call : ConfigState → Event → ℕ → Option CircuitBreakerEntry → Option CircuitBreakerEntry
entry_call c allows now o = some (allow c now (or_fresh now o)).0
entry_call c succeeds now none = none
entry_call c succeeds now (some e) = some (succeed c now e)
entry_call c fails now o = some (fail c now (or_fresh now o))

pub own_history :
    ConfigState → ℕ → Option CircuitBreakerEntry → List Call → Option CircuitBreakerEntry
unfolding entry_call or_fresh
own_history c id o [] = o
own_history c id o (k ∷ ks) =
    own_history c id (if k.id == id then entry_call c k.event k.now o else o) ks

call_in-get :
    (event : Event) (m : CircuitBreakerManager) (now id j : ℕ)
    → ((call_in event m now id).config ≡ m.config)
      × (get j (call_in event m now id).breakers ≡ (
          if id == j then entry_call m.config event now (get j m.breakers) else get j m.breakers))
unfolding call_in entry_call or_fresh allow_request record_success record_failure entry_or_insert
call_in-get allows m now id j = ground (
  arith,
  ==_iff id j,
  get-insert id j (allow m.config now (entry_or_insert now id m)).0 m.breakers,
)
call_in-get succeeds m now id j = elim (Option-cases (get id m.breakers)) [
  | inl e ↦ ground (arith, ==_iff id j)
  | inr (v, e) ↦ ground (arith, ==_iff id j, get-insert id j (succeed m.config now v) m.breakers)
]
call_in-get fails m now id j =
    ground (
      arith,
      ==_iff id j,
      get-insert id j (fail m.config now (entry_or_insert now id m)) m.breakers,
    )

pub call-get :
    (m : CircuitBreakerManager) (k : Call) (j : ℕ)
    → ((call m k).config ≡ m.config)
      × (get j (call m k).breakers ≡ (
          if k.id == j
          then entry_call m.config k.event k.now (get j m.breakers)
          else get j m.breakers))
unfolding call
call-get m k j = call_in-get k.event m k.now k.id j

-- Under any interleaving of calls the entry of a service is what its own calls, in their order,
-- make of it: breakers of different services do not interfere.
pub calls-own_history :
    (m : CircuitBreakerManager) (ks : List Call) (id : ℕ)
    → get id (calls m ks).breakers ≡ own_history m.config id (get id m.breakers) ks
unfolding calls own_history call
calls-own_history m [] id = refl
calls-own_history m (k ∷ ks) id =
    let (config, entry) = call_in-get k.event m k.now k.id id in
    calls-own_history (call m k) ks id ∙ rw (config, entry)

-- A service that has no entry yet is as good as one with a fresh entry.
abbrev pub EntryInv : ConfigState → Option CircuitBreakerEntry → Type 0
EntryInv c none = Unit
EntryInv c (some e) = Inv c e

entry_call-EntryInv :
    (c : ConfigState) (event : Event) (now : ℕ) (o : Option CircuitBreakerEntry)
    → IsClamped c
    → EntryInv c o
    → EntryInv c (entry_call c event now o)
unfolding entry_call or_fresh
entry_call-EntryInv c allows now none h v = allow-Inv c now _ h (fresh-Inv c now h)
entry_call-EntryInv c allows now (some e) h v = allow-Inv c now e h v
entry_call-EntryInv c succeeds now none h v = tt
entry_call-EntryInv c succeeds now (some e) h v = succeed-Inv c now e h v
entry_call-EntryInv c fails now none h v = fail-Inv c now _ h (fresh-Inv c now h)
entry_call-EntryInv c fails now (some e) h v = fail-Inv c now e h v

own_history-EntryInv :
    (c : ConfigState) (id : ℕ) (o : Option CircuitBreakerEntry) (ks : List Call)
    → IsClamped c
    → EntryInv c o
    → EntryInv c (own_history c id o ks)
unfolding own_history
own_history-EntryInv c id o [] h v = v
own_history-EntryInv c id o (k ∷ ks) h v = elim (Bool-cases (k.id == id)) [
  | inl same ↦ rw same (
      own_history-EntryInv c id (entry_call c k.event k.now o) ks h
        (entry_call-EntryInv c k.event k.now o h v))
  | inr other ↦ rw other (own_history-EntryInv c id o ks h v)
]

-- Every breaker of a manager made by new from numbers of 32 bits keeps the invariant under any
-- calls for any services.
pub new-calls-EntryInv :
    (threshold reset_secs probes : ℕ) (ks : List Call) (id : ℕ)
    → threshold ≤ u32_max
    → probes ≤ u32_max
    → let m = new threshold reset_secs probes in EntryInv m.config (get id (calls m ks).breakers)
unfolding new get
new-calls-EntryInv threshold reset_secs probes ks id ht hp =
    rw (calls-own_history (new threshold reset_secs probes) ks id) (
      own_history-EntryInv (clamped_config threshold reset_secs probes) id none ks (omega arith) tt)
