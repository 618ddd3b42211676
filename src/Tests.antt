-- ===== src/Tests.antt =====
-- The operations at concrete values.
mod Data
mod Times
mod Receiving
mod Working
mod Administering
mod Writing
mod Extracting
mod Signing
mod Asking
mod Searching
mod Listing
mod Querying
