-- ===== src/Mapping/Parse.antt =====
-- The streaming parser of the anibridge document (internal/mapping/parse.go), over the tokens of
-- encoding/json. Wrapping of errors and log lines are left out.
pub mod Json
pub mod Ranges
pub mod RangeLaws
pub mod Targets
pub mod Document
pub mod Tree
pub mod Skip
pub mod Reads
pub mod Refines
pub mod Settles
pub mod Best
