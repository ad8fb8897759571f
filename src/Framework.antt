-- ===== src/Framework.antt =====
-- src/manga_gateway/framework: what the sources of a search share.
pub mod Cooldown
pub mod FanOut
pub mod BrowserLifecycle
pub mod AndroidSolver
pub mod ExternalLinks
pub mod Health
pub mod ImageFetch
pub mod Lanes
pub mod ProxyPool
pub mod Request
pub mod Relevance
pub mod SingleFlight
pub mod SolverRouter
mod Tests
