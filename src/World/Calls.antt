-- ===== src/World/Calls.antt =====
-- The calls that the program makes of code that is not its own.
use sentry_peer.Base.{ℕ, String, Option, List}

-- The options of a libcurl handle that the program sets, with their values.
pub data CurlOption : Type 0 where
  curlopt_useragent curlopt_url curlopt_postfields : String → CurlOption
  curlopt_sslversion_tls12 : CurlOption
  curlopt_timeout : ℕ → CurlOption
  curlopt_httpheader : List String → CurlOption
  -- the two functions that are given what the server sends, and where the first one puts it
  write_save_json_results write_ignore_data : CurlOption
  writedata_chunk writedata_null : CurlOption

pub data Transport : Type 0 where
  udp tcp : Transport

-- The signals that the program asks for, and what `signal` sets for one: the program's handler, the
-- default action, which ends the process, or nothing.
pub data Signal : Type 0 where
  sigint sigterm sigprof sighup : Signal

pub data Disposition : Type 0 where
  handled default_action ignored : Disposition

pub data Call : Type 0 where
  -- clock_gettime and uuid_generate, as far as their text is used
  clock_gettime uuid_generate : Call
  -- SQLite
  sqlite_open : List ℕ → Call
  sqlite_exec : String → Call
  sqlite_prepare : String → Call
  sqlite_bind_text : ℕ → Option String → Call
  sqlite_step sqlite_finalize sqlite_close : Call
  sqlite_column_text sqlite_column_int : ℕ → Call
  -- libosip2: a message, its parsing, and the parts that the program reads
  osip_message_init parser_init osip_message_free : Call
  osip_message_parse : List ℕ → ℕ → Call
  osip_message_to_str osip_sip_method osip_to osip_to_url osip_to_url_username : Call
  osip_user_agent_header : Call
  -- syslog, the JSON log file, the Rust half of the program, the DHT, the socket
  syslog : Option String → Option String → Option String → Call
  fopen : List ℕ → Call
  fprintf : String → Call
  fclose : Call
  json_log_bad_actor_rs json_http_post_bad_actor_rs : Call
  dht_value_new_from_string dht_runner_put : String → Call
  sendto : ℕ → Call
  -- libmicrohttpd: the response, its status and headers; the request's content type
  mhd_create_response : String → Call
  mhd_queue_response : ℕ → Call
  mhd_add_response_header : String → String → Call
  mhd_destroy_response mhd_lookup_content_type : Call
  -- libcurl, and the snprintf into a header
  curl_global_init curl_easy_init curl_easy_perform curl_easy_getinfo_code : Call
  curl_easy_cleanup curl_global_cleanup : Call
  curl_easy_setopt : CurlOption → Call
  snprintf : ℕ → String → String → Call
  -- sockets, and the descriptor that `socket` or `accept` has returned
  getaddrinfo socket : Transport → Call
  freeaddrinfo getnameinfo close_negative : Call
  setsockopt_reuseaddr setsockopt_pktinfo bind_to listen close : ℕ → Call
  select accept recv recvmsg getsockname returned : ℕ → Call
  -- threads; the number of the one that was created, as it is asked for and as it is answered
  pthread_setcanceltype pthread_create pthread_created : Call
  thread_number pthread_setname_np pthread_cancel pthread_join : ℕ → Call
  run_sip_server_rs shutdown_sip_rs : Call
  -- the process: signals, exit handlers, sleep in seconds, and syslog with a format
  signal : Signal → Disposition → Call
  atexit openlog closelog : Call
  sleep : ℕ → Call
  syslog_message : String → Call
  -- the daemons of libmicrohttpd and OpenDHT
  mhd_start_daemon : ℕ → Call
  mhd_stop_daemon : Call
  dht_runner_new dht_runner_bootstrap dht_runner_listen dht_runner_cancel_listen : Call
  dht_runner_run_config : ℕ → Call
  dht_runner_shutdown dht_op_token_delete dht_runner_delete : Call
