-- ===== src/Gate.antt =====
-- service-src/service_gate.c and the headers that it alone includes.
pub mod Databuffer
pub mod Hashid
