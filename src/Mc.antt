-- ===== src/Mc.antt =====
-- internal/mc: what the Minecraft servers are run with.
pub mod Ring
pub mod Rcon
pub mod Properties
pub mod Memory
pub mod Instance
pub mod Checks
pub mod Manager
