-- ===== src/Deployment/FeatureFlags.antt =====
-- src/deployment/feature_flags.rs: flags with rules and a gradual rollout. The hash of the context, from
-- which the rollout takes its share, is `DefaultHasher`'s and stands as a function of the name and the
-- context. Times are arguments; the counters are of 64 bits.
pub mod Rollout
use xira_net.Common.{
  ℕ, ◌%◌, Bool, true, false, not, ◌&&◌, ◌||◌, Option, none, some, List, [], ◌∷◌, ◌++◌, Dict, get,
  insert, modify, Text, starts_with, split, trim, contains, ◌==◌, any, all, add64, ltb,
  if◌then◌else◌, is_some, nat_eq, text_eq,
}

pub data Operator : Type 0 where
  equals not_equals has_part begins in_list : Operator

pub record TargetRule : Type 0 where
  pub attribute : Text
  pub operator : Operator
  pub value : Text

pub record FeatureFlag : Type 0 where
  pub name : Text
  pub enabled : Bool
  pub description : Text
  pub percentage : ℕ  -- u32
  pub rules : List TargetRule
  pub created_at : ℕ
  pub updated_at : ℕ
  pub eval_count : ℕ  -- u64
  pub true_count : ℕ  -- u64

abbrev pub Context : Type 0
Context = Dict Text Text

abbrev pub Flags : Type 0
Flags = Dict Text FeatureFlag

unfoldable pub create : ℕ → Text → Text → Bool → ℕ → Flags → Flags
create now name description enabled percentage m =
    insert name
      (record {
        name = name;
        enabled = enabled;
        description = description;
        percentage = percentage;
        rules = [];
        created_at = now;
        updated_at = now;
        eval_count = 0;
        true_count = 0;
      })
      m

abbrev pub or_empty : Option Text → Text
or_empty none = []
or_empty (some v) = v

unfoldable pub holds : Operator → Text → Text → Bool
holds equals attr value = attr == value
holds not_equals attr value = not (attr == value)
holds has_part attr value = contains attr value
holds begins attr value = starts_with attr value
holds in_list attr value = any (λ v. trim v == attr) (split b',' value)

unfoldable pub matches : Context → TargetRule → Bool
unfolding holds
matches context rule = holds rule.operator (or_empty (get rule.attribute context)) rule.value

module _ (hash : Text → Context → ℕ) where
  -- The answer of a flag, without its counters.
  unfoldable pub decides : Text → Context → FeatureFlag → Bool
  unfolding matches
  decides name context flag =
      flag.enabled
      && all (matches context) flag.rules
      && (not (ltb flag.percentage 100) || ltb (hash name context % 100) flag.percentage)

  abbrev pub counted : Bool → FeatureFlag → FeatureFlag
  counted b flag = record flag {
    eval_count = add64 flag.eval_count 1;
    true_count = if b then add64 flag.true_count 1 else flag.true_count;
  }

  unfoldable pub evaluate_in : Text → Context → Flags → Option FeatureFlag → Bool × Flags
  unfolding decides
  evaluate_in name context m none = (false, m)
  evaluate_in name context m (some flag) =
      let b = decides name context flag in (b, insert name (counted b flag) m)

  unfoldable pub evaluate : Text → Context → Flags → Bool × Flags
  unfolding evaluate_in
  evaluate name context m = evaluate_in name context m (get name m)

unfoldable pub add_rule : Text → TargetRule → Flags → Bool × Flags
add_rule name rule m =
    if is_some (get name m)
    then (true, modify name (λ f. record f { rules = f.rules ++ rule ∷ [] }) m)
    else (false, m)

unfoldable pub toggle_in : Text → Flags → Option FeatureFlag → Option Bool × Flags
toggle_in name m none = (none, m)
toggle_in name m (some f) =
    (some (not f.enabled), insert name (record f { enabled = not f.enabled }) m)

unfoldable pub toggle : Text → Flags → Option Bool × Flags
unfolding toggle_in
toggle name m = toggle_in name m (get name m)
