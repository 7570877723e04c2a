-- ===== src/Storage.antt =====
-- internal/storage: the encrypted records, the file store with its index and log, the vector store
-- over it, the key in the keychain, and the retention of nodes.
pub mod Time
pub mod Hex
pub mod Encrypt
pub mod Keychain
pub mod JsonStore
pub mod VectorStore
pub mod Retention
pub mod Similarity
