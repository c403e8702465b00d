-- ===== src/Registry/Tests.antt =====
-- Runs of the registry, and the theorems about it at concrete services.
use mathlib.Core.Option
use xira_net.Common.{
  ◌<◌, ◌≡◌, refl, ◌⊎◌, true, none, some, [], ◌∷◌, insert, find, values, Text, codes, starts_with,
  trim_end_matches, length, In, All, nat_eq, text_eq,
}
use xira_net.Registry.{
  ServiceEntry, ServiceRegistry, new, entry_prefix, find_by_prefix, register, serves, lookup,
  insert_entry, new_entry, normalized_prefix, replace_existing,
}
use xira_net.Registry.Lookup.{Bounds, lookup_lem}
use xira_net.Registry.Prefixes.{registers, unregisters, changes, changes-new-IsUnique, IsUnique}

abbrev api : Text
api = codes "/api"

abbrev users : Text
users = codes "/api/users/"

abbrev two : ServiceRegistry
two =
    (register (register new 1 10 (codes "a") api (codes "http://a/") (codes "/h")).0 2 11
      (codes "u") users (codes "http://u") (codes "/h")).0

-- The longer prefix wins, and only at a segment's end.
longest_test :
    (Option.map (λ e. e.id) (lookup two (codes "/api/users/7")) ≡ some 2)
    × (Option.map (λ e. e.id) (lookup two (codes "/api/usersX")) ≡ some 1)
    × (Option.map (λ e. e.id) (lookup two (codes "/apix")) ≡ none)
unfolding lookup register new insert_entry replace_existing find_by_prefix find insert serves
    starts_with trim_end_matches entry_prefix new_entry normalized_prefix
longest_test = (refl, refl, refl)

-- A service at "/" serves every path, and is never found.
root_test :
    lookup
      (register new 1 10 (codes "a") (codes "/") (codes "http://a") (codes "/h")).0
      (codes "/x")
    ≡ none
unfolding lookup register new insert_entry replace_existing find_by_prefix find insert serves
    starts_with trim_end_matches entry_prefix new_entry normalized_prefix
root_test = refl

changes-new-IsUnique_example :
    IsUnique
      (changes new (
        registers 1 10 (codes "a") api (codes "http://a") (codes "/h")
        ∷ registers 2 11 (codes "b") (codes "api/") (codes "http://b") (codes "/h")
        ∷ unregisters 1
        ∷ [])).services
changes-new-IsUnique_example =
    changes-new-IsUnique
      (registers 1 10 (codes "a") api (codes "http://a") (codes "/h")
        ∷ registers 2 11 (codes "b") (codes "api/") (codes "http://b") (codes "/h")
        ∷ unregisters 1
        ∷ [])
      (λ e. cc, (λ e. cc, (tt, tt)))

lookup_lem_example :
    ((lookup two api ≡ none) × All (Bounds api 0) (values two.services))
    ⊎ ((e : ServiceEntry) × (lookup two api ≡ some e)
        × In e (values two.services)
        × (serves e.prefix api ≡ true)
        × (0 < length e.prefix)
        × All (Bounds api (length e.prefix)) (values two.services))
lookup_lem_example = lookup_lem two api
