-- ===== src/Tests.antt =====
-- Runs of the code on small inputs, and the theorems at concrete ones.
mod Texts
mod Limits
mod Sessions
mod Patches
mod Databases
mod Browsers
mod Lifecycles
mod Web
mod Logins
mod Logs
mod Apps
