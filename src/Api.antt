-- ===== src/Api.antt =====
-- The API server. `Status` is api/src/errors.rs, `Validation` api/src/validation.rs, `Store`
-- api/src/store.rs, `Handlers` api/src/handlers, and `Service` api/src/service.rs.
pub mod Status
pub mod Validation
pub mod Store
pub mod Handlers
pub mod Service
mod Tests
