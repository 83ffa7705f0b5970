-- ===== src/Authentication.antt =====
-- packages/authentication/src: the serializers of tickets and of their properties.
pub mod Memory
pub mod Entries
pub mod PropertiesSerializer
pub mod TicketSerializer
pub mod SecureDataFormat
mod Tests
