-- ===== src/Iot.antt =====
-- src/IoTManager.c: the gateway between the counter board on the serial line and TCP clients.
pub mod Serial
pub mod Event
pub mod Command
pub mod Server
pub mod Tests
