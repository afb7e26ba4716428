-- ===== src/Http.antt =====
-- internal/httpserver: the handlers as functions of the request, the server's maps and the database.
pub mod RateLimit
pub mod Limits
pub mod Webhooks
pub mod Oauth
pub mod Server
pub mod Redirect
