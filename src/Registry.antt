-- ===== src/Registry.antt =====
-- pkg/registry: services and their nodes, kept in etcd or consul.
pub mod Entity
pub mod Group
pub mod Grouped
pub mod Etcd
pub mod Consul
