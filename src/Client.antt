-- ===== src/Client.antt =====
-- The AniList client (internal/anilist/anilist.go from `Client` on): the pages of a year, the pacing of
-- requests, and the limits that the server announces.
pub mod Paging
pub mod Limits
pub mod Request
