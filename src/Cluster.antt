-- ===== src/Cluster.antt =====
-- What the controllers call: the Kubernetes API server, the v2ray servers, the process
-- environment and the helper functions of the Kubernetes libraries. None of it is code of this
-- repository, so all of it is a parameter, the record `Env` of Cluster/Env.antt.
pub mod Effect
pub mod Requests
pub mod Env
pub mod Client
pub mod Trace
pub mod Yields
pub mod Adds
pub mod Makes
pub mod Calm
