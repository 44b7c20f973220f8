-- ===== src/Store.antt =====
-- store.go and the stores that are built over other stores: storerouter.go, cache.go, failover.go,
-- and chunkstorage.go.
pub mod Defs
pub mod Router
pub mod Cache
pub mod Failover
pub mod Storage
