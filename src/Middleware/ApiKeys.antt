-- ===== src/Middleware/ApiKeys.antt =====
-- src/middleware/api_keys.rs: keys with a life, open prefixes and a switch. The time and the drawn
-- identifier are arguments; the counters are of 64 bits.
pub mod Disabled
mod Tests
use xira_net.Common.{
  ℕ, Bool, true, false, not, ◌&&◌, Option, none, some, List, [], ◌++◌, Dict, get, insert, Text,
  codes, starts_with, any, is_empty, add64, ltb, if◌then◌else◌, nat_eq, text_eq,
}

pub data ApiKeyRole : Type 0 where
  admin read_only service : ApiKeyRole
  custom : List Text → ApiKeyRole

pub record ApiKeyEntry : Type 0 where
  pub key : Text
  pub name : Text
  pub role : ApiKeyRole
  pub created_at : ℕ
  pub expires_at : Option ℕ
  pub rate_limit : Option ℕ
  pub allowed_prefixes : List Text
  pub enabled : Bool
  pub request_count : ℕ  -- u64
  pub last_used : ℕ

pub data KeyValidation : Type 0 where
  valid : ApiKeyEntry → KeyValidation
  expired disabled not_found rate_limited prefix_denied : KeyValidation

abbrev pub ApiKeyManager : Type 0
ApiKeyManager = Dict Text ApiKeyEntry

abbrev pub new : ApiKeyManager
new = []

abbrev pub end_of : ℕ → Option ℕ → Option ℕ
end_of now none = none
end_of now (some ttl) = some (add64 now ttl)

abbrev pub key_of : Text → Text
key_of drawn = codes "xira_" ++ drawn

-- `drawn` is the identifier of Uuid::new_v4 in hexadecimal, without dashes.
unfoldable pub create_key :
    Text → ℕ → Text → ApiKeyRole → Option ℕ → List Text → Option ℕ → ApiKeyManager → ApiKeyManager
create_key drawn now name role rate_limit allowed_prefixes ttl_secs m =
    insert (key_of drawn)
      (record {
        key = key_of drawn;
        name = name;
        role = role;
        created_at = now;
        expires_at = end_of now ttl_secs;
        rate_limit = rate_limit;
        allowed_prefixes = allowed_prefixes;
        enabled = true;
        request_count = 0;
        last_used = 0;
      })
      m

abbrev pub is_past : ℕ → Option ℕ → Bool
is_past now none = false
is_past now (some expires) = ltb expires now

unfoldable pub validate_entry : ℕ → Text → ApiKeyEntry → KeyValidation
validate_entry now path entry =
    if not entry.enabled
    then disabled
    else if is_past now entry.expires_at
    then expired
    else if not (is_empty entry.allowed_prefixes)
        && not (any (starts_with path) entry.allowed_prefixes)
    then prefix_denied
    else valid entry

unfoldable pub validate_in : ℕ → Text → Option ApiKeyEntry → KeyValidation
unfolding validate_entry
validate_in now path none = not_found
validate_in now path (some entry) = validate_entry now path entry

unfoldable pub validate : ℕ → Text → Text → ApiKeyManager → KeyValidation
unfolding validate_in
validate now key path m = validate_in now path (get key m)

unfoldable pub used : ℕ → Text → ApiKeyManager → Option ApiKeyEntry → ApiKeyManager
used now key m none = m
used now key m (some entry) =
    insert key (record entry { request_count = add64 entry.request_count 1; last_used = now }) m

unfoldable pub record_usage : ℕ → Text → ApiKeyManager → ApiKeyManager
unfolding used
record_usage now key m = used now key m (get key m)

unfoldable pub disable_in : Text → ApiKeyManager → Option ApiKeyEntry → Bool × ApiKeyManager
disable_in key m none = (false, m)
disable_in key m (some entry) = (true, insert key (record entry { enabled = false }) m)

unfoldable pub disable_key : Text → ApiKeyManager → Bool × ApiKeyManager
unfolding disable_in
disable_key key m = disable_in key m (get key m)

unfoldable pub import_legacy_key : ℕ → Text → ApiKeyManager → ApiKeyManager
import_legacy_key now key m =
    insert key
      (record {
        key = key;
        name = codes "legacy-admin";
        role = admin;
        created_at = now;
        expires_at = none;
        rate_limit = none;
        allowed_prefixes = [];
        enabled = true;
        request_count = 0;
        last_used = 0;
      })
      m
