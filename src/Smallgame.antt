-- ===== src/Smallgame.antt =====
-- The smallgame framework, framework/smallgame/: the gateway's halls, logins and sessions, and
-- the sessions of a hall.
pub mod Upstream
pub mod Relay
pub mod Login
pub mod Hall
