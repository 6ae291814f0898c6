-- ===== src/App/Config.antt =====
-- `AppConfig` and `App::load_config` of the demo. The sections keep the empty entries that
-- `operator[]` adds for keys that are missing; nothing else reads them.
use backend_common_component.Prelude.{Bool, true, false, Option, none, some, ℤ, pos, []}
use backend_common_component.Ini.Reader.{Text, Section, Ini, find, load, get_section}
use backend_common_component.Ini.Values.{Value, to_int, to_bool, to_text}
use backend_common_component.App.Keys

pub record AppConfig : Type 0 where
  pub server_port : ℤ
  pub thread_pool_size : ℤ
  pub redis_host : Text
  pub redis_port : ℤ
  pub redis_password : Text
  pub redis_db : ℤ
  pub redis_connect_timeout : ℤ
  pub redis_socket_timeout : ℤ
  pub redis_min_size : ℤ
  pub redis_max_size : ℤ
  pub redis_max_idle_time : ℤ
  pub redis_timeout : ℤ
  pub redis_op_num : ℤ
  pub mysql_host : Text
  pub mysql_port : ℤ
  pub mysql_user : Text
  pub mysql_password : Text
  pub mysql_database : Text
  pub mysql_min_size : ℤ
  pub mysql_max_size : ℤ
  pub mysql_max_idle_time : ℤ
  pub mysql_timeout : ℤ
  pub mysql_op_num : ℤ
  pub stock_key_prefix : Text
  pub default_timeout : ℤ
  pub retry_times : ℤ
  pub log_file_name : Text
  pub log_level : Text
  pub log_console : Bool
  pub log_max_lines : ℤ

-- `section[key]` of an `unordered_map`: an empty value where the key is missing.
abbrev pub value_at : Text → Section → Value
value_at key section = elim (find key section) [
  | none ↦ record { val = [] }
  | some v ↦ record { val = v }
]

-- What is read from the sections.
unfoldable pub read_config : (server redis rpool mysql business log_sec : Section) → AppConfig
unfolding find to_int to_bool to_text
read_config server redis rpool mysql business log_sec = record {
  server_port = to_int (value_at Keys.port server);
  thread_pool_size = to_int (value_at Keys.thread_pool_size server);
  redis_host = to_text (value_at Keys.host redis);
  redis_port = to_int (value_at Keys.port redis);
  redis_password = to_text (value_at Keys.password redis);
  redis_db = to_int (value_at Keys.database redis);
  redis_connect_timeout = to_int (value_at Keys.connect_timeout redis);
  redis_socket_timeout = to_int (value_at Keys.socket_timeout redis);
  redis_min_size = to_int (value_at Keys.max_idle rpool);
  redis_max_size = to_int (value_at Keys.max_active rpool);
  redis_max_idle_time = to_int (value_at Keys.idle_timeout rpool);
  redis_timeout = pos 5000;
  redis_op_num = to_int (value_at Keys.op_num rpool);
  mysql_host = to_text (value_at Keys.host mysql);
  mysql_port = to_int (value_at Keys.port mysql);
  mysql_user = to_text (value_at Keys.user mysql);
  mysql_password = to_text (value_at Keys.password mysql);
  mysql_database = to_text (value_at Keys.database mysql);
  mysql_min_size = to_int (value_at Keys.max_idle_conns mysql);
  mysql_max_size = to_int (value_at Keys.max_open_conns mysql);
  mysql_max_idle_time = to_int (value_at Keys.conn_max_lifetime mysql);
  mysql_timeout = pos 10000;
  mysql_op_num = to_int (value_at Keys.op_num mysql);
  stock_key_prefix = to_text (value_at Keys.stock_key_prefix business);
  default_timeout = to_int (value_at Keys.default_timeout business);
  retry_times = to_int (value_at Keys.retry_times business);
  log_file_name = to_text (value_at Keys.file_name log_sec);
  log_level = to_text (value_at Keys.level log_sec);
  log_console = to_bool (value_at Keys.console log_sec);
  log_max_lines = to_int (value_at Keys.max_lines log_sec);
}

-- The six sections, in the order in which they are looked up; a missing one throws.
unfoldable pub sections : Ini → Option AppConfig
unfolding get_section read_config
sections ini = elim (get_section Keys.server ini) [
  | none ↦ none
  | some server ↦ elim (get_section Keys.redis ini) [
    | none ↦ none
    | some redis ↦ elim (get_section Keys.redis_pool ini) [
      | none ↦ none
      | some rpool ↦ elim (get_section Keys.mysql ini) [
        | none ↦ none
        | some mysql ↦ elim (get_section Keys.business ini) [
          | none ↦ none
          | some business ↦ elim (get_section Keys.log ini) [
            | none ↦ none
            | some log_sec ↦ some (read_config server redis rpool mysql business log_sec)
          ]
        ]
      ]
    ]
  ]
]

-- `load_config` on the bytes of the file, if it can be opened: whether it succeeds, the members, and
-- what `IniFile` has read.
unfoldable pub load_config : Option Text → Ini → AppConfig → (Bool × AppConfig) × Ini
unfolding load sections
load_config file ini config =
    let ini' = load file ini in
    (elim (sections ini') [ none ↦ (false, config) | some c ↦ (true, c) ], ini')
