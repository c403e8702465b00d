-- ===== src/Registry/Reach.antt =====
-- A registered service is found at its own prefix.
use xira_net.Common.{nat_eq, text_eq}
