-- ===== src/Webhook.antt =====
-- The POST of a bad actor to a webhook with libcurl, and the OAuth2 bearer token that goes with it:
-- src/json_logger.c.
pub mod Curl
pub mod Token
pub mod Post
pub mod Transfers
pub mod TokenMemory
pub mod Answered
pub mod PostMemory
pub mod Posted
pub mod Chunk
pub mod Refusals
pub mod Endless
