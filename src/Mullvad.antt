-- ===== src/Mullvad.antt =====
-- src/mullvad: the relays of the API and their choice, and the set-up, tear-down and switch of the tunnel.
pub mod Relays
pub mod Control
