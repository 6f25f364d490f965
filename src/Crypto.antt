-- ===== src/Crypto.antt =====
-- internal/crypto: the envelope of secrets at rest, and the text that it is stored as.
pub mod Base64
pub mod Cipher
pub mod Envelope
