-- ===== src/Http.antt =====
-- The HTTP API: src/http_routes.c, src/http_common.c, the routes of src/http_*_route.c, and
-- `regex_match` of src/regex_match.c. libmicrohttpd is the environment, PCRE2 a parameter.
pub mod Response
pub mod Regex
pub mod Lookup
pub mod Listing
pub mod Daemon
pub mod Routes
pub mod NoLeak
pub mod Matched
pub mod ListingNoLeak
pub mod Requests
pub mod Refused
pub mod Answered
pub mod OneResponse
