-- ===== src/Resolve/HandedOff.antt =====
-- The hand-off to enforcement (api/enforcement.go: postEnforcementIssue; api/lifecycle.go:
-- resolveRequestedRule, persistResolvedRule).
