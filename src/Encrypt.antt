-- ===== src/Encrypt.antt =====
-- src/encrypt/libcrypto/aead.c: blocks that are encrypted and authenticated, behind a header.
pub mod Library
pub mod State
pub mod Nonce
pub mod Cipher
pub mod Header
pub mod Blocks
pub mod NonceLaws
pub mod Aead
pub mod Quiet
pub mod CipherLaws
pub mod DecryptSteps
pub mod DecryptLaws
pub mod BlockSteps
pub mod BlockLaws
pub mod Interface
