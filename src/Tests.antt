-- ===== src/Tests.antt =====
-- Runs of the theorems on concrete inputs.
mod Coalescing
mod Data
mod Decoding
mod Storing
mod Filtering
mod Fetching
mod Scheduling
mod Serving
mod Parsing
mod Loading
mod Upkeep
