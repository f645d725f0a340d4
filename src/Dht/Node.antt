-- ===== src/Dht/Node.antt =====
-- Start and stop of the DHT node: `peer_to_peer_dht_run` and `peer_to_peer_dht_stop` of
-- src/peer_to_peer_dht.c. The context of the listener is freed by `op_context_free`, which OpenDHT is
-- taken to call when the node is deleted.
use sentry_peer.Base.{ℕ, Bool, true, Option, none, some}
use sentry_peer.World.{
  Env, M, bad_read, assert_failed, free, call, emit, pure, stop, check, ◌>>=◌, ◌>>◌,
}
use sentry_peer.World.Calls.{
  dht_runner_new, dht_runner_run_config, dht_runner_bootstrap, sleep, dht_runner_listen,
  dht_runner_cancel_listen, dht_runner_shutdown, dht_op_token_delete, dht_runner_delete,
}
use sentry_peer.Conf.Settings.{Config}
use sentry_peer.Sip.Log.{op_context}

abbrev pub dht_port : ℕ
dht_port = 4222

abbrev pub dht_bootstrap_wait_time : ℕ
dht_bootstrap_wait_time = 5

unfoldable pub op_context_free : ℕ → M (Unit {0})
op_context_free ctx = free ctx

-- An assertion fails where there is no runner or no token, so EXIT_SUCCESS is the only result.
unfoldable pub peer_to_peer_dht_run : Env → Config → M (Bool × Config)
peer_to_peer_dht_run env config = check (call env dht_runner_new) (stop assert_failed) (do
  emit (dht_runner_run_config dht_port)
  ctx ← op_context
  emit dht_runner_bootstrap
  emit (sleep dht_bootstrap_wait_time)
  check (call env dht_runner_listen) (stop assert_failed)
      (pure (true, record config { dht_node = true; dht_op_token = some ctx.block })))

-- Without a listener the pointers are not set.
unfoldable pub stop_node : Option ℕ → M Bool
unfolding op_context_free
stop_node none = stop bad_read
stop_node (some ctx) = do
  emit dht_runner_cancel_listen
  emit dht_runner_shutdown
  emit dht_op_token_delete
  emit dht_runner_delete
  op_context_free ctx
  pure true

unfoldable pub peer_to_peer_dht_stop : Config → M Bool
unfolding stop_node
peer_to_peer_dht_stop config = stop_node config.dht_op_token
