-- ===== src/Http.antt =====
-- src/utils/http.rs and src/http.rs: the entity tags of a header, the requests and responses, and
-- the resources of the HTTP server.
pub mod Etags
pub mod Response
pub mod Resources
pub mod Server
mod Tests
