-- ===== src/Http.antt =====
-- inc/network/http and src/network/http: requests, their parser, responses and the server.
pub mod Headers
pub mod Request
pub mod Query
pub mod Context
pub mod Response
pub mod Server
mod Tests
