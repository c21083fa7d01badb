-- ===== src/Registry.antt =====
-- The registry over etcd, registry/: the index of services, and the locks of players.
pub mod Players
pub mod Trie
