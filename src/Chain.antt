-- ===== src/Chain.antt =====
-- infra/chain_adapters/base.py, and the loop over the blocks of one poll that eth_rpc.py and
-- sol_rpc.py share.
pub mod Eth
pub mod Sol
pub mod Utxo
pub mod Scan
pub mod Watch
pub mod Includes
pub mod Cursor
pub mod Watched
pub mod Progress
