-- ===== src/Api/Served.antt =====
-- Whose requests the handlers of internal/httpapi/server.go see.
use coeus.Prelude.{◌≡◌, String, after, Outcome, ret, raise, OnRet}
use coeus.Storage.World.{World}
use coeus.Http.Guards.{Reply}
use coeus.Http.Routes.{Route, Context, admit}
use coeus.Http.Routes.Entitled.{Entitled, access, admit-Entitled}
use coeus.Http.Routes.Refusals.{Refusal, Guarded, admit-Guarded}
use coeus.Handlers.Responses.{Sent}
use coeus.Api.{Server, Input, Body, window_id, handle, serve}

module _ (s : Server) (header : String) (route : Route) (input : Input route) (w : World) where
  abbrev Welcome : Context → Type 0
  Welcome ctx = Entitled s.verify header (window_id route input) w (access route) ctx

  -- How a request ends
  pub data Served : Outcome Reply World (Sent (Body route)) → Type 0 where
    handled :
        (ctx : Context) (w' : World)
        → Entitled s.verify header (window_id route input) w (access route) ctx
        → w'.db ≡ w.db
        → Served (handle s route input ctx w')
    turned_away :
        (reply : Reply) (w' : World) → Refusal reply → w'.db ≡ w.db → Served (raise reply w')

  -- A request is handled, on the tables as they are, as one of whom the access rules let use the
  -- route; or it changes nothing, and the reply is a 401, 403, 404 or 410 of the guards.
  pub serve-Served : Served (serve s header route input w)
  unfolding serve
  serve-Served =
      by (admit s.verify header (window_id route input) route w)
        (admit-Entitled s.verify header (window_id route input) w route)
        (admit-Guarded s.verify header (window_id route input) route w)
    where
      by :
          (o : Outcome Reply World Context)
          → OnRet (λ ctx _. Welcome ctx) o
          → Guarded w.db o
          → Served (after o λ ctx. handle s route input ctx)
      by (ret ctx w') e same = handled ctx w' e same
      by (raise reply w') e (r, same) = turned_away reply w' r same
