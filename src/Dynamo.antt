-- ===== src/Dynamo.antt =====
-- backend/internal/store/dynamo: the store on a DynamoDB table.
pub mod Keys
pub mod Items
pub mod Table
pub mod People
pub mod Pages
pub mod Entities
pub mod Merge
pub mod Laws
pub mod Exec
pub mod Refinement
