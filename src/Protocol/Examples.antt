-- ===== src/Protocol/Examples.antt =====
-- Events and keys in the bytes of the terminal protocol.
