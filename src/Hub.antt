-- ===== src/Hub.antt =====
-- app/services/hub: hub membership, the repository of hubs and the service with its caches.
pub mod RolePolicy
pub mod Domain
pub mod Names
pub mod Repository
pub mod Service
