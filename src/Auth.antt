-- ===== src/Auth.antt =====
-- middleware/: the checks of a bearer token in front of HTTP and gRPC handlers, and the sources of
-- tokens for clients.
pub mod Bearer
pub mod Checked
pub mod Admitted
pub mod HttpAuth
pub mod GrpcAuth
pub mod Client
