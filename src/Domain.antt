-- ===== src/Domain.antt =====
-- backend/src/domain/: the value objects and the entities.
pub mod MacAddress
pub mod IpAddress
pub mod Device
pub mod TcClassId
mod Tests
