-- ===== src/Boot/Works.antt =====
-- The boot on a flash part without a defect.
