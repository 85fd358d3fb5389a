-- ===== src/Scheduler.antt =====
-- The scheduler (internal/scheduler/scheduler.go): the failures and cooldowns of upstream fetches, the
-- fetch of one year and of several, the loading of the resolver, the background tasks, the filters of a
-- request, and the discovery of new mappings. Each critical section is one function on the state that its
-- mutex guards.
pub mod Failures
pub mod Fetch
pub mod Flights
pub mod Loading
pub mod Prewarm
pub mod Tasks
pub mod Process
pub mod Track
