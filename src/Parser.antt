-- ===== src/Parser.antt =====
-- apps/parsers: the payloads of the devices' answers, with what the parsers share.
pub mod Common
pub mod Networker
pub mod I6000
pub mod Zfs
pub mod Dxi
pub mod Dd
