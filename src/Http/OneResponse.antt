-- ===== src/Http/OneResponse.antt =====
-- How often the handler of src/http_routes.c queues a response, and with which status.
use sentry_peer.Base.{String}
use sentry_peer.World.{World}
use sentry_peer.World.Ends.{Ends}
use sentry_peer.World.Sent.{Sent, Quiet}
use sentry_peer.Http.Answered.{Answered}
