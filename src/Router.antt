-- ===== src/Router.antt =====
-- src/router: the choice of an endpoint, and the store of sticky sessions.
pub mod Balancer
pub mod Sticky
