-- ===== src/Client.antt =====
-- apps/clients/networker_rest_client.py: which requests a collection sends, with which query, and how a
-- failed one is repeated; apps/clients/zfs_rest_client.py; and apps/clients/i6000_rest_client.py. HTTP and the event loop are not here: an
-- attempt's end is a parameter.
pub mod Plan
pub mod Retry
pub mod Fetch
pub mod Zfs
pub mod I6000
pub mod Snmp
pub mod DxiCli
mod Windows
mod Laws
mod Tests
