-- ===== src/Server.antt =====
-- dynamic-config-server/src: the server that hands configurations out. `Auth` says who is calling,
-- `Config` what it refuses to start on, `Document` what a section serves, `Sections` the served
-- sections and the start, `Routes` what each request is answered, `Streams` the limit on open
-- streams and what a stream sends.
pub mod Auth
pub mod Names
pub mod Config
pub mod Document
pub mod Sections
pub mod Audit
pub mod Responses
pub mod Admit
pub mod Routes
pub mod Streams
mod Examples
