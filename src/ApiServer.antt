-- ===== src/ApiServer.antt =====
-- The HTTP API behind the web interface (internal/apiserver): its requests and answers, and its
-- handlers.
pub mod Http
pub mod Cluster
pub mod Endpoint
pub mod Deployments
pub mod Topology
pub mod Creates
pub mod Runs
pub mod Created
pub mod Events
