-- ===== src/Middleware/RequireRole/Tests.antt =====
-- The answer to a request without a session.
use xira_net.Common.{◌≡◌, refl, nat_eq, text_eq}
use xira_net.Middleware.RequireRole.{session_required, status}

unauthorized : status session_required ≡ 401
unfolding status
unauthorized = refl
