-- ===== src/Examples.antt =====
-- The theorems at concrete inputs.
mod Runner
mod Console
mod Wire
mod Bus
mod Logins
mod Curves
mod Cooling
mod Sysfs
mod Tokens
mod Clock
mod Runs
mod Terminal
mod Servers
mod Settings
mod Loading
