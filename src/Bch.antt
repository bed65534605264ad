-- ===== src/Bch.antt =====
-- internal/bch: the Bitcoin Cash transaction codec and the wallet of the bare-name registry.
pub mod Encode
pub mod Reader
pub mod Token
pub mod Crypto
pub mod Tx
pub mod Parse
pub mod CashAddr
pub mod Wallet
pub mod Registry
mod Tests
