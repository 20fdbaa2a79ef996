-- ===== src/Tests.antt =====
-- The theorems at concrete inputs, and runs of the definitions.
mod Mq
mod Timer
mod Handle
mod Netpack
mod Gate
mod Seri
mod Server
mod Crypt
mod Create
