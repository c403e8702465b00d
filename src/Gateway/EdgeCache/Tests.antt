-- ===== src/Gateway/EdgeCache/Tests.antt =====
-- Runs of the edge cache.
use xira_net.Common.{
  ℕ, ◌≤◌, ◌≡◌, refl, true, false, none, some, List, [], ◌∷◌, arith, Text, codes, length, nat_eq,
  text_eq,
}
use xira_net.Gateway.EdgeCache.{new, check, miss}
use xira_net.Gateway.EdgeCache.Bound.{Call, stores, checks, calls, calls-new-le}

abbrev digest : List ℕ → Text
digest body = body

abbrev three_calls : List (Call digest)
three_calls =
    stores 1 (codes "/a") (codes "A") (codes "text/plain") 200 [] 60
    ∷ checks 2 (codes "/a") (some (codes "A"))
    ∷ stores 3 (codes "/b") (codes "B") (codes "text/plain") 200 [] 60
    ∷ []

calls-new-le_example : length (calls digest three_calls (new 1 true)).entries ≤ 1
calls-new-le_example = calls-new-le digest 1 true three_calls (omega arith)

nothing_when_off : (check 5 (codes "/a") none (new 3 false)).0 ≡ miss
unfolding check
nothing_when_off = refl
