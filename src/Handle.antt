-- ===== src/Handle.antt =====
-- skynet-src/skynet_handle.c: the table from handles to services, and the names of services.
pub mod Names
pub mod Table
