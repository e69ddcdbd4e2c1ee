-- ===== src/Features/Tests.antt =====
-- features/features.go at concrete inputs.
