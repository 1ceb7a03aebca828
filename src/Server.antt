-- ===== src/Server.antt =====
-- server.ts: the way of a request through the gateway. Hono, the function host's waits and the run
-- of a function are inputs: what a wait reports and how a call ends.
pub mod Reply
pub mod Errors
pub mod Dispatch
pub mod Workerd
pub mod Pipeline
pub mod Outcomes
pub mod Agreement
pub mod Access
pub mod Booting
mod Tests
