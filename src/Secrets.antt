-- ===== src/Secrets.antt =====
-- `EncryptedCharField` of data_manager/fields.py: a column that is encrypted at rest.
pub mod Field
pub mod RoundTrip
mod Examples
