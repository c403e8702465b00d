-- ===== src/Registry.antt =====
-- src/registry/mod.rs and src/registry/models.rs: the services and the prefixes that they serve.
-- Ids and times are arguments, since the source draws them from `Uuid::new_v4` and the clock. Of the
-- database only the calls are kept: the registry ignores their results.
pub mod Lookup
pub mod Prefixes
pub mod Reach
mod Tests
use xira_net.Common.{
  ℕ, ◌%◌, Bool, ◌&&◌, ◌||◌, Option, none, some, List, [], ◌∷◌, ◌++◌, Dict, get, remove, insert,
  modify, find, values, Text, codes, starts_with, trim_end_matches, ◌==◌, length, any, all, add64,
  ltb, eqb, if◌then◌else◌, is_some, nat_eq, text_eq,
}

pub data ServiceStatus : Type 0 where
  up down unknown : ServiceStatus

pub record TransformConfig : Type 0 where
  pub add_request_headers : List (Text × Text)
  pub remove_request_headers : List Text
  pub add_response_headers : List (Text × Text)
  pub remove_response_headers : List Text

pub record ServiceEntry : Type 0 where
  pub id : ℕ
  pub name : Text
  pub prefix : Text
  pub upstream : Text
  pub health_endpoint : Text
  pub status : ServiceStatus
  pub registered_at : ℕ
  pub last_health_check : Option ℕ
  pub request_count : ℕ  -- u64
  pub upstreams : List Text
  pub load_balance : Option Text
  pub version : Option Text
  pub validation_schema : Option Text
  pub ip_whitelist : List Text
  pub ip_blacklist : List Text
  pub transform : Option TransformConfig

-- `ServiceConfig` and `RegisterServiceRequest` have the same fields.
pub record ServiceRequest : Type 0 where
  pub name : Text
  pub prefix : Text
  pub upstream : Text
  pub health_endpoint : Text
  pub upstreams : List Text
  pub load_balance : Option Text
  pub version : Option Text
  pub validation_schema : Option Text
  pub ip_whitelist : List Text
  pub ip_blacklist : List Text
  pub transform : Option TransformConfig

pub data StorageCall : Type 0 where
  save_service : ServiceEntry → StorageCall
  remove_service : ℕ → StorageCall
  log_event : Text → ℕ → Text → StorageCall
  update_request_count : ℕ → ℕ → StorageCall

pub record ServiceRegistry : Type 0 where
  pub services : Dict ℕ ServiceEntry
  pub storage : Option (List StorageCall)

unfoldable pub new : ServiceRegistry
new = record { services = []; storage = none }

-- The calls of the database, where there is one; the newest stands first.
abbrev stored : List StorageCall → Option (List StorageCall) → Option (List StorageCall)
stored calls none = none
stored calls (some before) = some (calls ++ before)

-- The prefix that `ServiceEntry::new` stores.
unfoldable pub entry_prefix : Text → Text
entry_prefix prefix =
    trim_end_matches b'/' (if starts_with prefix (b'/' ∷ []) then prefix else b'/' ∷ prefix)

unfoldable pub new_entry : ℕ → ℕ → Text → Text → Text → Text → ServiceEntry
new_entry id now name prefix upstream health_endpoint = record {
  id = id;
  name = name;
  prefix = entry_prefix prefix;
  upstream = trim_end_matches b'/' upstream;
  health_endpoint = health_endpoint;
  status = unknown;
  registered_at = now;
  last_health_check = none;
  request_count = 0;
  upstreams = [];
  load_balance = none;
  version = none;
  validation_schema = none;
  ip_whitelist = [];
  ip_blacklist = [];
  transform = none;
}

push_new : List Text → List Text → List Text
push_new all [] = all
push_new all (u ∷ us) = push_new (if any (λ v. v == u) all then all else all ++ u ∷ []) us

-- The main upstream first, then the others, each once.
unfoldable pub all_upstreams : ServiceEntry → List Text
unfolding push_new
all_upstreams e = push_new (e.upstream ∷ []) e.upstreams

-- The prefix that `find_by_prefix` looks for.
unfoldable pub normalized_prefix : Text → Text
normalized_prefix prefix =
    if starts_with prefix (b'/' ∷ [])
    then trim_end_matches b'/' prefix
    else b'/' ∷ trim_end_matches b'/' prefix

unfoldable pub find_by_prefix : ServiceRegistry → Text → Option ServiceEntry
find_by_prefix r prefix = find (λ e. e.prefix == normalized_prefix prefix) r.services

-- `storage.remove_service` of the service that a registration replaces.
unfoldable pub replace_existing : ServiceRegistry → Text → ServiceRegistry
replace_existing r prefix = elim (find_by_prefix r prefix) [
  | none ↦ r
  | some existing ↦ record {
    services = remove existing.id r.services;
    storage = stored (remove_service existing.id ∷ []) r.storage;
  }
]

unfoldable pub insert_entry : ServiceRegistry → ServiceEntry → ServiceRegistry
insert_entry r e = record {
  services = insert e.id e r.services;
  storage =
      stored (log_event (codes "service_registered") e.id e.name ∷ save_service e ∷ []) r.storage;
}

unfoldable pub register :
    ServiceRegistry → ℕ → ℕ → Text → Text → Text → Text → ServiceRegistry × ServiceEntry
register r id now name prefix upstream health =
    let e = new_entry id now name prefix upstream health in
    (insert_entry (replace_existing r prefix) e, e)

-- The entry that `register_advanced` and `load_from_config` build.
abbrev pub advanced_entry : ℕ → ℕ → ServiceRequest → ServiceEntry
advanced_entry id now req =
    record (new_entry id now req.name req.prefix req.upstream req.health_endpoint) {
      upstreams = req.upstreams;
      load_balance = req.load_balance;
      version = req.version;
      validation_schema = req.validation_schema;
      ip_whitelist = req.ip_whitelist;
      ip_blacklist = req.ip_blacklist;
      transform = req.transform;
    }

unfoldable pub register_advanced :
    ServiceRegistry → ℕ → ℕ → ServiceRequest → ServiceRegistry × ServiceEntry
register_advanced r id now req =
    let e = advanced_entry id now req in (insert_entry (replace_existing r req.prefix) e, e)

-- One round of `load_from_config`, with the id and time of that round: a prefix that is taken is
-- skipped, and no event is logged.
unfoldable pub load_one : ServiceRegistry → ℕ × ℕ × ServiceRequest → ServiceRegistry
load_one r (id, now, svc) = elim (find_by_prefix r svc.prefix) [
  | some existing ↦ r
  | none ↦ record {
    services = insert id (advanced_entry id now svc) r.services;
    storage = stored (save_service (advanced_entry id now svc) ∷ []) r.storage;
  }
]

unfoldable pub load_from_config : ServiceRegistry → List (ℕ × ℕ × ServiceRequest) → ServiceRegistry
load_from_config r [] = r
load_from_config r (svc ∷ svcs) = load_from_config (load_one r svc) svcs

unfoldable pub unregister : ServiceRegistry → ℕ → ServiceRegistry × Option ServiceEntry
unregister r id = elim (get id r.services) [
  | none ↦ (r, none)
  | some e ↦ (
    record {
      services = remove id r.services;
      storage =
          stored (log_event (codes "service_unregistered") e.id e.name ∷ remove_service e.id ∷ [])
            r.storage;
    },
    some e,
  )
]

-- `path == prefix || path.starts_with(&format!("{prefix}/"))`.
unfoldable pub serves : Text → Text → Bool
serves prefix path = path == prefix || starts_with path (prefix ++ b'/' ∷ [])

-- The loop of `lookup`.
unfoldable pub lookup_from :
    Text → ℕ → Option ServiceEntry → List ServiceEntry → Option ServiceEntry
lookup_from path best_len best [] = best
lookup_from path best_len best (e ∷ es) =
    let longer = lookup_from path (length e.prefix) (some e) es in
    let same = lookup_from path best_len best es in
    if serves e.prefix path && ltb best_len (length e.prefix) then longer else same

unfoldable pub lookup : ServiceRegistry → Text → Option ServiceEntry
unfolding lookup_from
lookup r path = lookup_from path 0 none (values r.services)

unfoldable pub update_status : ServiceRegistry → ℕ → ℕ → ServiceStatus → ServiceRegistry
update_status r now id s = record r {
  services = modify id (λ e. record e { status = s; last_health_check = some now }) r.services;
}

unfoldable pub set_upstreams : ServiceRegistry → ℕ → List Text → ServiceRegistry × Bool
set_upstreams r id us = (
  record r { services = modify id (λ e. record e { upstreams = us }) r.services },
  is_some (get id r.services),
)

-- Every hundredth request is written to the database.
unfoldable pub increment_request_count : ServiceRegistry → ℕ → ServiceRegistry
increment_request_count r id = elim (get id r.services) [
  | none ↦ r
  | some e ↦
      let count = add64 e.request_count 1 in
      record {
        services = modify id (λ e. record e { request_count = add64 e.request_count 1 }) r.services;
        storage =
            if eqb (count % 100) 0
            then stored (update_request_count e.id count ∷ []) r.storage
            else r.storage;
      }
]
