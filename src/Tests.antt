-- ===== src/Tests.antt =====
-- Concrete runs and surroundings, and the theorems at them.
mod Histories
mod Requests
mod Events
mod Metrics
mod Clusters
mod Scripts
mod Checkpoints
mod Data
mod Answers
mod Api
mod Drivers
mod Controller
mod Cleanup
mod Injections
mod Resolvers
mod Deployments
