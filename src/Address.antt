-- ===== src/Address.antt =====
-- OtwarteDaneTransportowe/request_ip.py: the address of a client behind our proxies.
pub mod Client
pub mod Spoofing
mod Examples
