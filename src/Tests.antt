-- ===== src/Tests.antt =====
-- Concrete runs of the operations.
mod Domains
mod Pools
mod Proxies
mod Health
mod Sites
mod Upstreams
mod Routes
mod Strategies
mod Rows
mod Shortlists
mod Queries
mod Frames
mod Registry
