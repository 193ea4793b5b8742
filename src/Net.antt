-- ===== src/Net.antt =====
-- data_manager/net_security.py: outbound requests that may not reach private addresses.
pub mod Failures
pub mod Urls
pub mod Pinning
pub mod Download
pub mod Redirects
pub mod Certificates
pub mod Guard
pub mod Kept
pub mod Requests
pub mod Drained
pub mod Examples
