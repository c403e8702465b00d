-- ===== src/Deployment/Releases.antt =====
-- src/deployment/releases.rs: the two upstreams of a release, the switch between them and the rollback.
-- An error rate and its threshold are in floating point: their type and comparison are parameters. Ids
-- and times are arguments.
pub mod Rollback
use xira_net.Common.{
  ℕ, Bool, true, false, not, Option, none, some, Dict, get, insert, Text, codes, ◌==◌,
  saturating_inc64, if◌then◌else◌, nat_eq, text_eq,
}

pub data ReleaseStatus : Type 0 where
  active rolled_back completed : ReleaseStatus

pub data ReleaseStrategy : Type 0 where
  blue_green : ReleaseStrategy
  canary : ℕ → ReleaseStrategy

pub record Release (Rate : Type 0) : Type 0 where
  pub id : Text
  pub service : Text
  pub strategy : ReleaseStrategy
  pub status : ReleaseStatus
  pub blue_upstream : Text
  pub green_upstream : Text
  pub active_color : Text
  pub error_threshold : Rate
  pub created_at : ℕ
  pub switched_at : Option ℕ
  pub rollback_count : ℕ

abbrev pub is_active : ReleaseStatus → Bool
is_active active = true
is_active s = false

unfoldable pub flip_color : Text → Text
flip_color c = if c == codes "blue" then codes "green" else codes "blue"

module _ {Rate : Type 0} (at_most : Rate → Rate → Bool) where
  abbrev pub Releases : Type 0
  Releases = Dict Text (Release Rate)

  unfoldable pub create :
      Text → ℕ → Text → Text → Text → ReleaseStrategy → Rate → Releases → Releases
  create id now service blue green strategy error_threshold m =
      insert id
        (record {
          id = id;
          service = service;
          strategy = strategy;
          status = active;
          blue_upstream = blue;
          green_upstream = green;
          active_color = codes "blue";
          error_threshold = error_threshold;
          created_at = now;
          switched_at = none;
          rollback_count = 0;
        })
        m

  abbrev pub flipped : ℕ → Release Rate → Release Rate
  flipped now r = record r { active_color = flip_color r.active_color; switched_at = some now }

  unfoldable pub switch_found : ℕ → Release Rate → Option Text × Release Rate
  unfolding flip_color
  switch_found now r =
      if is_active r.status then (some (flip_color r.active_color), flipped now r) else (none, r)

  unfoldable pub switch_in : ℕ → Text → Releases → Option (Release Rate) → Option Text × Releases
  unfolding switch_found
  switch_in now id m none = (none, m)
  switch_in now id m (some r) = ((switch_found now r).0, insert id (switch_found now r).1 m)

  unfoldable pub switch : ℕ → Text → Releases → Option Text × Releases
  unfolding switch_in
  switch now id m = switch_in now id m (get id m)

  unfoldable pub upstream_of : Release Rate → Text
  upstream_of r = if r.active_color == codes "blue" then r.blue_upstream else r.green_upstream

  unfoldable pub active_upstream : Text → Releases → Option Text
  unfolding upstream_of
  active_upstream id m = elim (get id m) [ none ↦ none | some r ↦ some (upstream_of r) ]

  abbrev pub undone : ℕ → Release Rate → Release Rate
  undone now r = record (flipped now r) {
    rollback_count = saturating_inc64 r.rollback_count;
    status = rolled_back;
  }

  unfoldable pub rollback_found : ℕ → Rate → Release Rate → Bool × Release Rate
  unfolding flip_color
  rollback_found now rate r =
      if not (is_active r.status)
      then (false, r)
      else if at_most rate r.error_threshold
      then (false, r)
      else (true, undone now r)

  unfoldable pub rollback_in : ℕ → Rate → Text → Releases → Option (Release Rate) → Bool × Releases
  unfolding rollback_found
  rollback_in now rate id m none = (false, m)
  rollback_in now rate id m (some r) =
      ((rollback_found now rate r).0, insert id (rollback_found now rate r).1 m)

  unfoldable pub check_rollback : ℕ → Rate → Text → Releases → Bool × Releases
  unfolding rollback_in
  check_rollback now rate id m = rollback_in now rate id m (get id m)
