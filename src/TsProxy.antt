-- ===== src/TsProxy.antt =====
-- The proxy of the TypeScript language server (src/ts_proxy).
pub mod Transport
pub mod Pending
