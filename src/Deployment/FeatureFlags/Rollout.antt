-- ===== src/Deployment/FeatureFlags/Rollout.antt =====
-- A wider rollout takes nothing away, and the counters agree.
use xira_net.Common.{ℕ, ◌≤◌, ◌≡◌, true, List, [], ◌∷◌, arith, Text, all, All, nat_eq, text_eq}
use xira_net.Deployment.FeatureFlags.{FeatureFlag, Context, TargetRule, matches, decides}

module _ (hash : Text → Context → ℕ) where
  -- Who has a feature keeps it when the share of the rollout grows.
  decides_mono :
      (name : Text) (context : Context) (flag : FeatureFlag) (more : ℕ)
      → flag.percentage ≤ more
      → decides hash name context flag ≡ true
      → decides hash name context (record flag { percentage = more }) ≡ true
  unfolding decides
  decides_mono name context flag more le h = ground (arith, le, h)

  -- Of a flag with rules, only a context that keeps all of them gets the feature.
  decides-matches :
      (name : Text) (context : Context) (flag : FeatureFlag)
      → decides hash name context flag ≡ true
      → All (λ rule. matches context rule ≡ true) flag.rules
  unfolding decides
  decides-matches name context flag h = kept flag.rules (ground (arith, h))
    where
      kept :
          (rules : List TargetRule)
          → all (matches context) rules ≡ true
          → All (λ rule. matches context rule ≡ true) rules
      kept [] e = tt
      kept (r ∷ rs) e = (ground (arith, e), kept rs (ground (arith, e)))
