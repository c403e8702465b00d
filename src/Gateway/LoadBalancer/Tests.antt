-- ===== src/Gateway/LoadBalancer/Tests.antt =====
-- Runs of the balancer, and the theorems about it at concrete upstreams.
use xira_net.Common.{
  ◌<◌, ◌≡◌, refl, some, [], ◌∷◌, arith, get, insert, Text, codes, to_ascii_lowercase, get_elem?,
  nat_eq, text_eq,
}
use xira_net.Gateway.LoadBalancer.{
  LoadBalancer, least_connections, from_str, select_upstream, conn_count, least_from,
}
use xira_net.Gateway.LoadBalancer.Selection.{picks, turn, picks_fair}

abbrev a : Text
a = codes "http://a"

abbrev b : Text
b = codes "http://b"

abbrev c : Text
c = codes "http://c"

abbrev loaded : LoadBalancer
loaded = record { counters = (7, 4) ∷ []; connections = (a, 3) ∷ (b, 1) ∷ (c, 1) ∷ [] }

strategy_test : from_str (codes "Least-Connections") ≡ least_connections
unfolding from_str to_ascii_lowercase
strategy_test = refl

turns_test : picks loaded 7 (a ∷ b ∷ c ∷ []) 4 ≡ b ∷ c ∷ a ∷ b ∷ []
unfolding picks select_upstream get insert
turns_test = refl

-- The first of the least loaded is taken.
least_test : (select_upstream loaded 0 7 (a ∷ b ∷ c ∷ []) least_connections).1 ≡ b
unfolding select_upstream least_from conn_count get
least_test = refl

picks_fair_example :
    (turn 4 3 2 < 3) × (get_elem? (picks loaded 7 (a ∷ b ∷ c ∷ []) 3) (turn 4 3 2) ≡ some c)
unfolding get
picks_fair_example = picks_fair loaded 7 2 a b (c ∷ []) (omega arith) (omega arith)
