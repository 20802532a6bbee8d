-- ===== src/Server.antt =====
-- Package httpserver: the authentication of its callers, its handlers, and what New builds them from.
pub mod Reply
pub mod Callers
pub mod ServiceAccounts
pub mod Handlers
pub mod Build
pub mod Start
