-- ===== src/Middleware/ApiKeys/Tests.antt =====
-- A key that is made, disabled and tried.
use xira_net.Common.{◌≡◌, refl, none, [], ◌∷◌, get, insert, codes, nat_eq, text_eq}
use xira_net.Middleware.ApiKeys.{
  ApiKeyManager, service, admin, new, create_key, import_legacy_key, validate, disabled,
  disable_key,
}
use xira_net.Middleware.ApiKeys.Disabled.{calls, creates, uses, imports, calls-disabled}

abbrev two_keys : ApiKeyManager
unfolding create_key import_legacy_key insert
two_keys =
    import_legacy_key 5 (codes "old")
      (create_key (codes "1f") 3 (codes "ci") service none [] none new)

calls-disabled_example :
    validate 9 (codes "xira_1f") (codes "/api") (
      calls
        (uses 7 (codes "xira_1f")
          ∷ imports 8 (codes "older")
          ∷ creates (codes "2e") 8 (codes "cd") admin none [] none
          ∷ [])
        (disable_key (codes "xira_1f") two_keys).1)
    ≡ disabled
unfolding two_keys get
calls-disabled_example =
    calls-disabled (codes "xira_1f") (codes "/api") 9
      (uses 7 (codes "xira_1f")
        ∷ imports 8 (codes "older")
        ∷ creates (codes "2e") 8 (codes "cd") admin none [] none
        ∷ [])
      two_keys refl (tt, (refl, (refl, tt)))
