-- ===== src/LoadShed.antt =====
-- internal/loadshed/shedder.go: the bound on the requests that are served at a time.
pub mod Shedder
mod Examples
