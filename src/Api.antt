-- ===== src/Api.antt =====
-- backend/internal/api: the REST surface.
pub mod Ids
pub mod Identity
pub mod Response
pub mod Contacts
pub mod Create
pub mod Read
pub mod Receipts
pub mod Router
pub mod Contract
pub mod Guard
