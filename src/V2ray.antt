-- ===== src/V2ray.antt =====
-- internal/controller/v2ray_controller.go: the controller of V2ray resources.
pub mod Image
pub mod Reconcile
