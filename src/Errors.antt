-- ===== src/Errors.antt =====
-- Errors of p2p/errors.go, in its order. The messages put around them are left out.
use mx_chain_communication_g.Common.{ℕ}

pub data P2pError : Type 0 where
  nil_context nil_mock_net nil_topic channel_does_not_exist channel_can_not_be_deleted : P2pError
  channel_can_not_be_re_added nil_message already_seen_message message_too_new : P2pError
  message_too_old nil_direct_send_message_handler peer_not_directly_connected nil_host : P2pError
  nil_validator peer_discovery_process_already_started message_too_large : P2pError
  empty_buffer_to_send nil_fetch_peers_on_topic_handler invalid_duration_provided : P2pError
  too_many_goroutines invalid_value invalid_port_value invalid_ports_range_string : P2pError
  invalid_starting_port_value invalid_ending_port_value : P2pError
  end_port_is_smaller_than_start_port no_free_port_in_range nil_sharder : P2pError
  nil_peer_shard_resolver nil_marshaller wrong_type_assertion nil_reconnecter : P2pError
  unwanted_peer nil_peer_denial_evaluator message_unmarshal_error unsupported_fields : P2pError
  unsupported_message_version nil_sync_timer nil_preferred_peers_holder : P2pError
  invalid_seeders_reconnection_interval message_processor_already_defined : P2pError
  message_processor_does_not_exist wrong_type_assertions nil_connections_watcher : P2pError
  nil_peers_rating_handler nil_p2p_private_key nil_p2p_single_signer : P2pError
  nil_p2p_key_generator nil_cacher nil_p2p_signer nil_pub_sub nil_direct_sender : P2pError
  nil_throttler nil_channel_load_balancer nil_debugger invalid_config : P2pError
  nil_peers_on_channel nil_connection_monitor nil_network nil_peer_discoverer : P2pError
  nil_connections_metric nil_connections_handler nil_logger invalid_tcp_address : P2pError
  invalid_quic_address invalid_ws_address invalid_web_transport_address : P2pError
  no_transports_defined unknown_resource_limiter_type : P2pError
  -- An error of a library or of a component that is a parameter, by a code of its own.
  foreign : ℕ → P2pError
