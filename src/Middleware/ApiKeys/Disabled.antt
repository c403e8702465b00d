-- ===== src/Middleware/ApiKeys/Disabled.antt =====
-- A key that was disabled stays so.
use xira_net.Common.{
  ℕ, ◌≡◌, refl, sym, ap, ◌∙◌, inl, inr, Bool, true, false, Option, none, some, List, [], ◌∷◌, arith,
  get, insert, get-insert, get-insert_self, get-insert_other, Text, ◌==◌, ==_iff, All, add64,
  if◌then◌else◌, Bool-cases, is_some, some_inj, nat_eq, text_eq,
}
use xira_net.Middleware.ApiKeys.{
  ApiKeyEntry, ApiKeyRole, ApiKeyManager, disabled, key_of, create_key, validate_entry, validate_in,
  validate, used, record_usage, disable_in, disable_key, import_legacy_key,
}

-- The calls that change the keys.
pub data Call : Type 0 where
  creates : Text → ℕ → Text → ApiKeyRole → Option ℕ → List Text → Option ℕ → Call
  uses : ℕ → Text → Call
  disables : Text → Call
  imports : ℕ → Text → Call

abbrev pub call : Call → ApiKeyManager → ApiKeyManager
call (creates drawn now name role limit prefixes ttl) m =
    create_key drawn now name role limit prefixes ttl m
call (uses now key) m = record_usage now key m
call (disables key) m = (disable_key key m).1
call (imports now key) m = import_legacy_key now key m

abbrev pub calls : List Call → ApiKeyManager → ApiKeyManager
calls [] m = m
calls (c ∷ cs) m = calls cs (call c m)

-- The call puts no new entry under the key.
abbrev pub Spares : Text → Call → Type 0
Spares key (creates drawn now name role limit prefixes ttl) = (key_of drawn == key) ≡ false
Spares key (uses now k) = Unit {0}
Spares key (disables k) = Unit {0}
Spares key (imports now k) = (k == key) ≡ false

abbrev switch_of : Option ApiKeyEntry → Option Bool
switch_of none = none
switch_of (some entry) = some entry.enabled

switch-insert :
    (k key : Text) (e f : ApiKeyEntry) (m : ApiKeyManager)
    → get k m ≡ some e
    → (switch_of (get key m) ≡ some false → e.enabled ≡ false → f.enabled ≡ false)
    → switch_of (get key m) ≡ some false
    → switch_of (get key (insert k f m)) ≡ some false
switch-insert k key e f m h kept off = elim (Bool-cases (k == key)) [
  | inl same ↦
      ap switch_of (get-insert k key f m ∙ ap (λ b. if b then some f else get key m) same)
      ∙ ap some (
          kept off (
            some_inj
              (sym (ap switch_of (ap (λ j. get j m) (sym ((==_iff k key).0 same)) ∙ h)) ∙ off)))
  | inr other ↦ ap switch_of (get-insert_other k key f m other) ∙ off
]

switch-used :
    (now : ℕ) (k key : Text) (m : ApiKeyManager) (o : Option ApiKeyEntry)
    → get k m ≡ o
    → switch_of (get key m) ≡ some false
    → switch_of (get key (used now k m o)) ≡ some false
unfolding used
switch-used now k key m none h off = off
switch-used now k key m (some e) h off =
    switch-insert k key e (record e { request_count = add64 e.request_count 1; last_used = now }) m
      h (λ _ d. d) off

switch-disable_in :
    (k key : Text) (m : ApiKeyManager) (o : Option ApiKeyEntry)
    → get k m ≡ o
    → switch_of (get key m) ≡ some false
    → switch_of (get key (disable_in k m o).1) ≡ some false
unfolding disable_in
switch-disable_in k key m none h off = off
switch-disable_in k key m (some e) h off =
    switch-insert k key e (record e { enabled = false }) m h (λ _ _. refl) off

switch-call :
    (key : Text) (c : Call) (m : ApiKeyManager)
    → Spares key c
    → switch_of (get key m) ≡ some false
    → switch_of (get key (call c m)) ≡ some false
unfolding create_key record_usage disable_key import_legacy_key
switch-call key (creates drawn now name role limit prefixes ttl) m spared off =
    ap switch_of (get-insert_other (key_of drawn) key _ m spared) ∙ off
switch-call key (uses now k) m spared off = switch-used now k key m (get k m) refl off
switch-call key (disables k) m spared off = switch-disable_in k key m (get k m) refl off
switch-call key (imports now k) m spared off =
    ap switch_of (get-insert_other k key _ m spared) ∙ off

switch-calls :
    (key : Text) (cs : List Call) (m : ApiKeyManager)
    → All (Spares key) cs
    → switch_of (get key m) ≡ some false
    → switch_of (get key (calls cs m)) ≡ some false
switch-calls key [] m spared off = off
switch-calls key (c ∷ cs) m (first, rest) off =
    switch-calls key cs (call c m) rest (switch-call key c m first off)

validate_in-off :
    (now : ℕ) (path : Text) (o : Option ApiKeyEntry)
    → switch_of o ≡ some false
    → validate_in now path o ≡ disabled
unfolding validate_in validate_entry
validate_in-off now path none h = ground (arith, h)
validate_in-off now path (some e) h = rw (some_inj h) refl

switch-disabled :
    (key : Text) (m : ApiKeyManager) (o : Option ApiKeyEntry)
    → is_some o ≡ true
    → switch_of (get key (disable_in key m o).1) ≡ some false
unfolding disable_in
switch-disabled key m none h = ground (arith, h)
switch-disabled key m (some e) h =
    ap switch_of (get-insert_self key (record e { enabled = false }) m)

-- A known key that is disabled is refused as disabled, on every path and at every time,
-- whatever other keys are made and whichever are used or disabled, as long as the key itself is
-- not made or imported anew.
pub calls-disabled :
    (key path : Text) (now : ℕ) (cs : List Call) (m : ApiKeyManager)
    → is_some (get key m) ≡ true
    → All (Spares key) cs
    → validate now key path (calls cs (disable_key key m).1) ≡ disabled
unfolding validate disable_key
calls-disabled key path now cs m known spared =
    validate_in-off now path (get key (calls cs (disable_key key m).1))
      (switch-calls key cs (disable_key key m).1 spared (switch-disabled key m (get key m) known))
