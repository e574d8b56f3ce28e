-- ===== src/User.antt =====
-- internal/controller/v2rayuser_controller.go: the controller of V2rayUser resources.
pub mod Server
pub mod Registered
pub mod Labels
pub mod Calls
pub mod Calm
pub mod Rollback
pub mod Add
pub mod Finalize
pub mod Elect
pub mod Reconcile
