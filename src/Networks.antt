-- ===== src/Networks.antt =====
-- lib/networks.ts, lib/wallets.ts, lib/network-selection.ts and lib/assets.ts: the networks that the
-- program knows, the choice of a network and of a wallet, and the assets that settle a currency.
pub mod Registry
pub mod Selection
mod Tests
