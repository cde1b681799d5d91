-- ===== src/DomainService.antt =====
-- execution_engine/domain/service.py: the service for applications and deployments.
pub mod Inputs
pub mod Accepting
pub mod Config
pub mod Operations
pub mod Applying
pub mod Deploying
