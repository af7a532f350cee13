-- ===== src/Tests.antt =====
-- Runs of the definitions, and the theorems at concrete inputs.
mod Auth
mod Proxy
mod Router
mod Fail2ban
mod Health
mod RateLimit
mod Stats
mod Server
mod Config
mod Chat
mod Generic
mod Reports
