-- ===== src/Examples/Waits.antt =====
-- ffi/rpc_bridge_common.cpp: a deferred call that is cancelled.
