-- ===== src/Postgres/Audit/Order.antt =====
-- Every execution is audited once, in order.
use turjmp.Prelude.{ℕ, ◌≡◌, refl, ap, List, [], ◌∷◌, ◌++◌, if◌then◌else◌, null, Text}
use turjmp.Postgres.{FrontendMessage, BackendMessage}
use turjmp.Postgres.Audit.{PostgresAuditState, portal_query, observe_frontend, observe_backend}
use mathlib.Core.List.{map}

-- A message that passes the proxy at an instant, from the client or from the server.
pub data Observed : Type 0 where
  frontend : ℕ → FrontendMessage → Observed
  backend : ℕ → BackendMessage → Observed

unfoldable pub observe : Text → PostgresAuditState → Observed → PostgresAuditState
observe unknown_error s (Observed.frontend now m) = observe_frontend s now m
observe unknown_error s (Observed.backend now m) = observe_backend unknown_error s now m

unfoldable pub observe_all : Text → PostgresAuditState → List Observed → PostgresAuditState
unfolding observe
observe_all unknown_error s [] = s
observe_all unknown_error s (m ∷ ms) = observe_all unknown_error (observe unknown_error s m) ms

-- The SQL text that a message starts, if it starts one.
unfoldable pub starts : PostgresAuditState → Observed → List Text
starts s (Observed.frontend now (FrontendMessage.query q)) = q ∷ []
starts s (Observed.frontend now (FrontendMessage.execute portal)) =
    if null (portal_query s portal) then [] else portal_query s portal ∷ []
starts s (Observed.frontend now (FrontendMessage.parse name q)) = []
starts s (Observed.frontend now (FrontendMessage.bind portal statement)) = []
starts s (Observed.frontend now (FrontendMessage.close kind name)) = []
starts s (Observed.frontend now FrontendMessage.other_frontend) = []
starts s (Observed.backend now m) = []

unfoldable pub started : Text → PostgresAuditState → List Observed → List Text
unfolding starts observe
started unknown_error s [] = []
started unknown_error s (m ∷ ms) =
    starts s m ++ started unknown_error (observe unknown_error s m) ms

-- The SQL texts of the state in the order in which they started: those sent, then those that wait.
unfoldable pub statements : PostgresAuditState → List Text
statements s = map (λ e. e.query) s.audited ++ map (λ e. e.query) s.pending

started-append :
    (unknown_error : Text) (s : PostgresAuditState) (trace : List Observed) (now : ℕ)
    (m : BackendMessage)
    → started unknown_error s (trace ++ Observed.backend now m ∷ []) ≡ started unknown_error s trace
unfolding started starts
started-append u s [] now m = refl
started-append u s (n ∷ ns) now m =
    ap (◌++◌ (starts s n)) (started-append u (observe u s n) ns now m)
