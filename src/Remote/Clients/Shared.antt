-- ===== src/Remote/Clients/Shared.antt =====
-- Buckets that share a client.
