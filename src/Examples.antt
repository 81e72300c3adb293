-- ===== src/Examples.antt =====
-- The theorems at concrete inputs.
mod Fakes
mod Clusters
mod Certificates
mod Witnesses
mod Users
mod Rollouts
mod Secured
mod Operator
