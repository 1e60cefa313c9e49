-- ===== src/Gn1200/Again.antt =====
-- src/driver/GN1200.c: a reply that comes in pieces, after the same reply came whole. The bytes
-- behind those received are still there.
