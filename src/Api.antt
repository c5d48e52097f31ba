-- ===== src/Api.antt =====
-- internal/api: the service of elections.
pub mod Grpc
pub mod Http
pub mod Pods
pub mod Server
