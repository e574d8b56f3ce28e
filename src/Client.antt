-- ===== src/Client.antt =====
-- internal/controller/v2rayclient_controller.go: the controller of V2rayClient resources.
pub mod Elect
pub mod Reconcile
