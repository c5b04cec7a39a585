-- ===== src/Shared.antt =====
-- Package shared: helpers over decoded JSON documents (shared/).
pub mod Value
pub mod MapUtil
