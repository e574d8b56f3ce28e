-- ===== src/Api.antt =====
-- The objects that the controllers read and write: the program's own resources (api/v1alpha1)
-- and, of the Kubernetes objects, the fields that the source reads or writes.
pub mod Meta
pub mod Core
pub mod Deployment
pub mod V2ray
pub mod User
pub mod Client
