-- ===== src/Identity/Sessions/Tests.antt =====
-- Runs of the session manager, and the theorems at concrete histories.
use xira_net.Common.{
  ℕ, ◌+◌, ◌≡◌, refl, ◌≢◌, true, none, some, List, [], ◌∷◌, ◌++◌, arith, get, remove, insert, modify,
  Text, codes, strip_prefix, starts_with, to_ascii_lowercase, contains, nat_eq, text_eq,
}
use xira_net.Identity.Sessions.{
  apply_invalidate_user, delete_tokens, delete_session, deactivate, validate_found, touched,
  Session, SessionManager, create, validate_with_request, invalidate_all, new, ip_mismatch,
  detect_device, insert_session, deactivate_all, evict_oldest, is_live,
}
use xira_net.Identity.Sessions.Index.{Inv}
use xira_net.Identity.Sessions.Validity.{Op, creates, run, step, run-new-Inv}
use xira_net.Identity.Sessions.Logout.{invalidate_all-validate, create-validate_with_request}

-- A toy hash: the bytes of the token, and one more.
abbrev toy_hash : Text → Text
toy_hash token = token ++ b'#' ∷ []

abbrev two_logins : List (ℕ × Op)
two_logins =
    (10, creates 1 (codes "ada") (codes "t1") (codes "10.0.0.1") (codes "curl/8") 3600)
    ∷ (5, creates 0 (codes "ada") (codes "t2") (codes "10.0.0.2") (codes "Mozilla iPhone") 3600)
    ∷ (5, creates 0 (codes "bob") (codes "t3") (codes "10.0.0.3") (codes "") 3600)
    ∷ []

device_test : detect_device (codes "Mozilla iPhone") ≡ codes "Mobile"
unfolding detect_device to_ascii_lowercase contains starts_with
device_test = refl

run-new-Inv_example :
    Inv (run toy_hash 100 (new 1) two_logins).0 (run toy_hash 100 (new 1) two_logins).1
run-new-Inv_example = run-new-Inv toy_hash two_logins 100 1

-- The session that is left after the logout of ada, when there was room for two of each user.
abbrev bob : Session
bob = record {
  token = codes "t3";
  user_id = codes "bob";
  created_at = 121;
  expires_at = 3721;
  last_activity = 151;
  ip = codes "10.0.0.3";
  user_agent = [];
  device_name = codes "Desktop";
  active = true;
}

bob_stays :
    (validate_with_request toy_hash
      (invalidate_all (run toy_hash 100 (new 2) two_logins).1 (codes "ada")).1
      ((run toy_hash 100 (new 2) two_logins).0 + 30)
      (codes "t3")
      none).0
    ≡ some bob
unfolding validate_with_request validate_found touched invalidate_all apply_invalidate_user
    delete_tokens delete_session new run step create insert_session deactivate_all deactivate
    evict_oldest is_live detect_device to_ascii_lowercase contains starts_with strip_prefix get
    insert remove modify ip_mismatch
bob_stays = refl

invalidate_all-validate_example : codes "bob" ≢ codes "ada"
invalidate_all-validate_example =
    invalidate_all-validate toy_hash two_logins 100 2 30 (codes "ada") (codes "t3") none bob
      bob_stays

create-validate_with_request_example :
    (validate_with_request toy_hash
      (create toy_hash
        (new 1)
        100
        100
        (codes "ada")
        (codes "t1")
        (codes "10.0.0.1")
        (codes "curl")
        60).1
      130
      (codes "t1")
      (some (codes "10.0.0.1"))).0
    ≡ some
        (record (create toy_hash
          (new 1)
          100
          100
          (codes "ada")
          (codes "t1")
          (codes "10.0.0.1")
          (codes "curl")
          60).0 { last_activity = 130 })
create-validate_with_request_example =
    create-validate_with_request toy_hash (new 1) 100 100 130 (codes "ada") (codes "t1")
      (codes "10.0.0.1") (codes "curl") 60 (omega arith)

abbrev ada : Session
ada = record {
  token = toy_hash (codes "t1");
  user_id = codes "ada";
  created_at = 100;
  expires_at = 160;
  last_activity = 100;
  ip = codes "10.0.0.1";
  user_agent = [];
  device_name = codes "Desktop";
  active = true;
}

abbrev with_ada : SessionManager
with_ada = record (new 1) { sessions = (toy_hash (codes "t1"), ada) ∷ [] }

ada_found : get (toy_hash (codes "t1")) with_ada.sessions ≡ some ada
unfolding get
ada_found = refl

stolen : ip_mismatch ada.ip (some (codes "6.6.6.6")) ≡ true
unfolding ip_mismatch
stolen = refl
