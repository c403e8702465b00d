-- ===== src/Deployment/Tests.antt =====
-- A release that is rolled back, and a flag whose rollout reaches a user.
use xira_net.Common.{ℕ, ◌≡◌, refl, true, some, [], ◌∷◌, get, Text, codes, leb, nat_eq, text_eq}
use xira_net.Deployment.FeatureFlags.{FeatureFlag, Context, equals, decides, matches, holds}
use xira_net.Deployment.Releases.{Release, Releases, blue_green, rolled_back}
use xira_net.Deployment.Releases.Rollback.{calls, switches, checks, calls-rolled_back}

abbrev undone_release : Release ℕ
undone_release = record {
  id = codes "r1";
  service = codes "api";
  strategy = blue_green;
  status = rolled_back;
  blue_upstream = codes "http://b";
  green_upstream = codes "http://g";
  active_color = codes "blue";
  error_threshold = 5;
  created_at = 100;
  switched_at = some 120;
  rollback_count = 1;
}

abbrev one_release : Releases leb
one_release = (codes "r1", undone_release) ∷ []

calls-rolled_back_example :
    get (codes "r1") (calls leb (codes "r1") (switches 130 ∷ checks 140 9 ∷ []) one_release)
    ≡ some undone_release
unfolding get
calls-rolled_back_example =
    calls-rolled_back leb (codes "r1") (switches 130 ∷ checks 140 9 ∷ []) one_release undone_release
      refl refl

abbrev beta : FeatureFlag
beta = record {
  name = codes "beta";
  enabled = true;
  description = [];
  percentage = 30;
  rules = record { attribute = codes "country"; operator = equals; value = codes "TR" } ∷ [];
  created_at = 0;
  updated_at = 0;
  eval_count = 0;
  true_count = 0;
}

abbrev from_turkey : Context
from_turkey = (codes "country", codes "TR") ∷ []

abbrev hash : Text → Context → ℕ
hash name context = 12345617

decides-beta : decides hash (codes "beta") from_turkey beta ≡ true
unfolding decides matches holds get
decides-beta = refl
