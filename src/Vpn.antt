-- ===== src/Vpn.antt =====
-- The VPN tunnel as the program sees it: src/mullvad/health.ts and src/server/vpn-permissions.ts.
pub mod Health
pub mod Permissions
mod Tests
