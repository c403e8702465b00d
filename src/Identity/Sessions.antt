-- ===== src/Identity/Sessions.antt =====
-- src/identity/sessions.rs: sessions by the hash of their token, with an index by user. The hash
-- (`sha2`, `hmac`) stands as a function; writes to storage and events on the bus are logs, newest
-- first. Times are in seconds. A user agent that changed is only logged by the source.
pub mod Eviction
pub mod Index
pub mod Upkeep
pub mod Validity
pub mod Logout
mod Tests
use xira_net.Common.{
  ℕ, suc, ◌-◌, max, Bool, true, false, not, ◌&&◌, ◌||◌, Option, none, some, List, [], ◌∷◌, ◌++◌,
  Dict, get, remove, insert, modify, Text, codes, to_ascii_lowercase, contains, ◌==◌, length,
  retain, is_empty, add64, ltb, leb, if◌then◌else◌, nat_eq, text_eq,
}

pub record Session : Type 0 where
  pub token : Text  -- the hash, in the manager
  pub user_id : Text
  pub created_at : ℕ
  pub expires_at : ℕ
  pub last_activity : ℕ
  pub ip : Text
  pub user_agent : Text
  pub device_name : Text
  pub active : Bool

pub data StorageWrite : Type 0 where
  persist : Text → Session → StorageWrite
  delete_persisted : Text → StorageWrite

-- `bus::BusEvent`.
pub data BusEvent : Type 0 where
  session_invalidate_user : Text → BusEvent
  session_invalidate_token : Text → BusEvent
  waf_rule_added : ℕ → Text → Text → BusEvent
  waf_rule_removed : ℕ → BusEvent

pub record SessionManager : Type 0 where
  pub sessions : Dict Text Session
  pub user_sessions : Dict Text (List Text)
  pub max_sessions_per_user : ℕ
  pub storage : Option (List StorageWrite)
  pub published : List BusEvent

unfoldable pub new : ℕ → SessionManager
new max_sessions = record {
  sessions = [];
  user_sessions = [];
  max_sessions_per_user = max max_sessions 1;
  storage = none;
  published = [];
}

abbrev pub written : StorageWrite → Option (List StorageWrite) → Option (List StorageWrite)
written w none = none
written w (some ws) = some (w ∷ ws)

abbrev pub or_empty : Option (List Text) → List Text
or_empty none = []
or_empty (some ts) = ts

abbrev pub tokens_of : SessionManager → Text → List Text
tokens_of m user_id = or_empty (get user_id m.user_sessions)

-- Lower case is ASCII's here: the words below match no other text in Unicode's.
unfoldable pub detect_device : Text → Text
detect_device ua =
    let ua_lower = to_ascii_lowercase ua in
    if contains ua_lower (codes "mobile")
      || contains ua_lower (codes "android")
      || contains ua_lower (codes "iphone")
    then codes "Mobile"
    else if contains ua_lower (codes "tablet") || contains ua_lower (codes "ipad")
    then codes "Tablet"
    else if contains ua_lower (codes "curl")
        || contains ua_lower (codes "httpie")
        || contains ua_lower (codes "postman")
    then codes "CLI/API Client"
    else codes "Desktop"

unfoldable pub is_live : ℕ → Option Session → Bool
is_live now none = false
is_live now (some s) = s.active && leb now s.expires_at

-- The loop that takes the oldest tokens off: those taken, and those left.
unfoldable pub evict_oldest : ℕ → List Text → List Text × List Text
evict_oldest most [] = ([], [])
evict_oldest most (t ∷ ts) =
    let rest = evict_oldest most ts in
    if ltb most (length (t ∷ ts)) then (t ∷ rest.0, rest.1) else ([], t ∷ ts)

abbrev pub written_inactive :
    Text → Option Session → Option (List StorageWrite) → Option (List StorageWrite)
written_inactive old none ws = ws
written_inactive old (some s) ws = written (persist old (record s { active = false })) ws

-- `get_mut` of an evicted token, and `persist` if it was there.
unfoldable pub deactivate : SessionManager → Text → SessionManager
deactivate m old = record m {
  sessions = modify old (λ s. record s { active = false }) m.sessions;
  storage = written_inactive old (get old m.sessions) m.storage;
}

unfoldable pub deactivate_all : SessionManager → List Text → SessionManager
deactivate_all m [] = m
deactivate_all m (t ∷ ts) = deactivate_all (deactivate m t) ts

unfoldable pub insert_session : SessionManager → Text → Session → SessionManager
insert_session m hashed s = record m {
  sessions = insert hashed s m.sessions;
  storage = written (persist hashed s) m.storage;
}

unfoldable pub invalidate_found : SessionManager → Text → Option Session → Bool × SessionManager
invalidate_found m hashed none = (false, m)
invalidate_found m hashed (some s) = (
  true,
  record m {
    sessions = remove hashed m.sessions;
    user_sessions = modify s.user_id (retain (λ t. not (t == hashed))) m.user_sessions;
    storage = written (delete_persisted hashed) m.storage;
  },
)

unfoldable pub apply_invalidate_token : SessionManager → Text → Bool × SessionManager
apply_invalidate_token m hashed = invalidate_found m hashed (get hashed m.sessions)

abbrev pub is_active : Option Session → Bool
is_active none = false
is_active (some s) = s.active

unfoldable pub delete_session : SessionManager → Text → SessionManager
delete_session m hashed = record m {
  sessions = remove hashed m.sessions;
  storage = written (delete_persisted hashed) m.storage;
}

-- The loop of `apply_invalidate_user`, which counts the active ones.
unfoldable pub delete_tokens : SessionManager → List Text → ℕ × SessionManager
delete_tokens m [] = (0, m)
delete_tokens m (t ∷ ts) =
    let rest = delete_tokens (delete_session m t) ts in
    ((if is_active (get t m.sessions) then suc rest.0 else rest.0), rest.1)

unfoldable pub apply_invalidate_user : SessionManager → Text → ℕ × SessionManager
apply_invalidate_user m user_id =
    let (count, m') = delete_tokens m (tokens_of m user_id) in
    (count, record m' { user_sessions = remove user_id m'.user_sessions })

unfoldable pub invalidate_all : SessionManager → Text → ℕ × SessionManager
invalidate_all m user_id =
    let (count, m') = apply_invalidate_user m user_id in
    (
      count,
      (if ltb 0 count
          then record m' { published = session_invalidate_user user_id ∷ m'.published }
          else m'),
    )

-- The handler of events from other nodes, which are not published again.
unfoldable pub handle : SessionManager → BusEvent → SessionManager
handle m (session_invalidate_token hashed) = (apply_invalidate_token m hashed).1
handle m (session_invalidate_user user_id) = (apply_invalidate_user m user_id).1
handle m _ = m

unfoldable pub user_sessions_of : SessionManager → List Text → List Session
user_sessions_of m [] = []
user_sessions_of m (t ∷ ts) =
    let rest = user_sessions_of m ts in
    elim (get t m.sessions) [ none ↦ rest | some s ↦ if s.active then s ∷ rest else rest ]

-- The entries that `cleanup_expired` removes, with their users.
unfoldable pub expired : ℕ → Dict Text Session → List (Text × Text)
expired now [] = []
expired now ((t, s) ∷ m) =
    let rest = expired now m in
    if ltb s.expires_at now || not s.active then (t, s.user_id) ∷ rest else rest

unfoldable pub clean : SessionManager → List (Text × Text) → SessionManager
clean m [] = m
clean m ((hashed, user_id) ∷ xs) =
    clean
      (record m {
        sessions = remove hashed m.sessions;
        user_sessions = modify user_id (retain (λ t. not (t == hashed))) m.user_sessions;
        storage = written (delete_persisted hashed) m.storage;
      })
      xs

unfoldable pub cleanup_expired : SessionManager → ℕ → ℕ × SessionManager
cleanup_expired m now =
    let to_remove = expired now m.sessions in (length to_remove, clean m to_remove)

-- The address of a request does not fit that of the session; neither may be left open.
unfoldable pub ip_mismatch : Text → Option Text → Bool
ip_mismatch stored none = false
ip_mismatch stored (some ip) =
    not (is_empty stored)
    && not (stored == codes "unknown")
    && not (is_empty ip)
    && not (stored == ip)

unfoldable pub touched :
    SessionManager → ℕ → Text → Text → Session → Option Session × SessionManager
touched m now token hashed s =
    let s' = record s { last_activity = now } in
    (
      some (record s' { token = token }),
      record m {
        sessions = insert hashed s' m.sessions;
        storage =
            if leb 30 (now - s.last_activity)
            then written (persist hashed s') m.storage
            else m.storage;
      },
    )

unfoldable pub validate_found :
    SessionManager
    → ℕ
    → Text
    → Text
    → Option Text
    → Option Session
    → Option Session × SessionManager
validate_found m now token hashed expected_ip none = (none, m)
validate_found m now token hashed expected_ip (some s) =
    if not s.active || ltb s.expires_at now
    then (none, m)
    else if ip_mismatch s.ip expected_ip
    then (none, (apply_invalidate_token m hashed).1)
    else touched m now token hashed s

module _ (hash_token : Text → Text) where
  unfoldable pub create :
      SessionManager → ℕ → ℕ → Text → Text → Text → Text → ℕ → Session × SessionManager
  create m now now2 user_id token ip user_agent ttl_secs =
      let hashed = hash_token token in
      let stored : Session = record {
        token = hashed;
        user_id = user_id;
        created_at = now;
        expires_at = add64 now ttl_secs;
        last_activity = now;
        ip = ip;
        user_agent = user_agent;
        device_name = detect_device user_agent;
        active = true;
      } in
      let user_tokens =
        retain (λ t. is_live now2 (get t m.sessions) || t == hashed)
          (tokens_of m user_id ++ hashed ∷ []) in
      let (evicted, left) = evict_oldest m.max_sessions_per_user user_tokens in
      let m1 = record m { user_sessions = insert user_id left m.user_sessions } in
      (record stored { token = token }, insert_session (deactivate_all m1 evicted) hashed stored)

  unfoldable pub validate_with_request :
      SessionManager → ℕ → Text → Option Text → Option Session × SessionManager
  validate_with_request m now token expected_ip =
      let hashed = hash_token token in
      validate_found m now token hashed expected_ip (get hashed m.sessions)

  unfoldable pub validate : SessionManager → ℕ → Text → Option Session × SessionManager
  validate m now token = validate_with_request m now token none

  unfoldable pub invalidate : SessionManager → Text → Bool × SessionManager
  invalidate m token =
      let hashed = hash_token token in
      let (removed, m') = apply_invalidate_token m hashed in
      (
        removed,
        (if removed
            then record m' { published = session_invalidate_token hashed ∷ m'.published }
            else m'),
      )
