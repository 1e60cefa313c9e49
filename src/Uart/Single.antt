-- ===== src/Uart/Single.antt =====
-- src/UartManager.c: a frame at the front of the buffer.
