-- ===== src/Tests.antt =====
-- Runs on small inputs, and the theorems at concrete data.
mod Roles
mod Grants
mod Walks
mod Rules
mod Queries
mod Texts
mod Instances
mod Loose
mod Current
mod Stages
mod Attributes
