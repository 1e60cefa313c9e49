-- ===== src/Iot/Server/Cut.antt =====
-- A request that a read cuts: the parser does not compare its length with what was received.
