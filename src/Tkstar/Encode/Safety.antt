-- ===== src/Tkstar/Encode/Safety.antt =====
-- commands.go: what can reach a tracker.
