-- ===== src/Provisioning/Inserts.antt =====
-- What becomes of a token that gets as far as its row.
