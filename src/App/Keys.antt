-- ===== src/App/Keys.antt =====
-- The names of sections and keys that `load_config` of demos/demo1/src/app.cpp reads.
use backend_common_component.Prelude.{[], ◌∷◌}
use backend_common_component.Ini.Reader.{Text}

abbrev pub server : Text
server = b's' ∷ b'e' ∷ b'r' ∷ b'v' ∷ b'e' ∷ b'r' ∷ []

abbrev pub redis : Text
redis = b'r' ∷ b'e' ∷ b'd' ∷ b'i' ∷ b's' ∷ []

abbrev pub redis_pool : Text
redis_pool = b'r' ∷ b'e' ∷ b'd' ∷ b'i' ∷ b's' ∷ b'_' ∷ b'p' ∷ b'o' ∷ b'o' ∷ b'l' ∷ []

abbrev pub mysql : Text
mysql = b'm' ∷ b'y' ∷ b's' ∷ b'q' ∷ b'l' ∷ []

abbrev pub business : Text
business = b'b' ∷ b'u' ∷ b's' ∷ b'i' ∷ b'n' ∷ b'e' ∷ b's' ∷ b's' ∷ []

abbrev pub log : Text
log = b'l' ∷ b'o' ∷ b'g' ∷ []

abbrev pub port : Text
port = b'p' ∷ b'o' ∷ b'r' ∷ b't' ∷ []

abbrev pub thread_pool_size : Text
thread_pool_size =
    b't' ∷ b'h' ∷ b'r' ∷ b'e' ∷ b'a' ∷ b'd' ∷ b'_' ∷ b'p' ∷ b'o' ∷ b'o' ∷ b'l' ∷ b'_' ∷ b's' ∷ b'i'
    ∷ b'z' ∷ b'e' ∷ []

abbrev pub host : Text
host = b'h' ∷ b'o' ∷ b's' ∷ b't' ∷ []

abbrev pub password : Text
password = b'p' ∷ b'a' ∷ b's' ∷ b's' ∷ b'w' ∷ b'o' ∷ b'r' ∷ b'd' ∷ []

abbrev pub database : Text
database = b'd' ∷ b'a' ∷ b't' ∷ b'a' ∷ b'b' ∷ b'a' ∷ b's' ∷ b'e' ∷ []

abbrev pub connect_timeout : Text
connect_timeout =
    b'c' ∷ b'o' ∷ b'n' ∷ b'n' ∷ b'e' ∷ b'c' ∷ b't' ∷ b'_' ∷ b't' ∷ b'i' ∷ b'm' ∷ b'e' ∷ b'o' ∷ b'u'
    ∷ b't' ∷ []

abbrev pub socket_timeout : Text
socket_timeout =
    b's' ∷ b'o' ∷ b'c' ∷ b'k' ∷ b'e' ∷ b't' ∷ b'_' ∷ b't' ∷ b'i' ∷ b'm' ∷ b'e' ∷ b'o' ∷ b'u' ∷ b't'
    ∷ []

abbrev pub max_idle : Text
max_idle = b'm' ∷ b'a' ∷ b'x' ∷ b'_' ∷ b'i' ∷ b'd' ∷ b'l' ∷ b'e' ∷ []

abbrev pub max_active : Text
max_active = b'm' ∷ b'a' ∷ b'x' ∷ b'_' ∷ b'a' ∷ b'c' ∷ b't' ∷ b'i' ∷ b'v' ∷ b'e' ∷ []

abbrev pub idle_timeout : Text
idle_timeout =
    b'i' ∷ b'd' ∷ b'l' ∷ b'e' ∷ b'_' ∷ b't' ∷ b'i' ∷ b'm' ∷ b'e' ∷ b'o' ∷ b'u' ∷ b't' ∷ []

abbrev pub op_num : Text
op_num = b'o' ∷ b'p' ∷ b'_' ∷ b'n' ∷ b'u' ∷ b'm' ∷ []

abbrev pub user : Text
user = b'u' ∷ b's' ∷ b'e' ∷ b'r' ∷ []

abbrev pub max_idle_conns : Text
max_idle_conns =
    b'm' ∷ b'a' ∷ b'x' ∷ b'_' ∷ b'i' ∷ b'd' ∷ b'l' ∷ b'e' ∷ b'_' ∷ b'c' ∷ b'o' ∷ b'n' ∷ b'n' ∷ b's'
    ∷ []

abbrev pub max_open_conns : Text
max_open_conns =
    b'm' ∷ b'a' ∷ b'x' ∷ b'_' ∷ b'o' ∷ b'p' ∷ b'e' ∷ b'n' ∷ b'_' ∷ b'c' ∷ b'o' ∷ b'n' ∷ b'n' ∷ b's'
    ∷ []

abbrev pub conn_max_lifetime : Text
conn_max_lifetime =
    b'c' ∷ b'o' ∷ b'n' ∷ b'n' ∷ b'_' ∷ b'm' ∷ b'a' ∷ b'x' ∷ b'_' ∷ b'l' ∷ b'i' ∷ b'f' ∷ b'e' ∷ b't'
    ∷ b'i' ∷ b'm' ∷ b'e' ∷ []

abbrev pub stock_key_prefix : Text
stock_key_prefix =
    b's' ∷ b't' ∷ b'o' ∷ b'c' ∷ b'k' ∷ b'_' ∷ b'k' ∷ b'e' ∷ b'y' ∷ b'_' ∷ b'p' ∷ b'r' ∷ b'e' ∷ b'f'
    ∷ b'i' ∷ b'x' ∷ []

abbrev pub default_timeout : Text
default_timeout =
    b'd' ∷ b'e' ∷ b'f' ∷ b'a' ∷ b'u' ∷ b'l' ∷ b't' ∷ b'_' ∷ b't' ∷ b'i' ∷ b'm' ∷ b'e' ∷ b'o' ∷ b'u'
    ∷ b't' ∷ []

abbrev pub retry_times : Text
retry_times = b'r' ∷ b'e' ∷ b't' ∷ b'r' ∷ b'y' ∷ b'_' ∷ b't' ∷ b'i' ∷ b'm' ∷ b'e' ∷ b's' ∷ []

abbrev pub file_name : Text
file_name = b'f' ∷ b'i' ∷ b'l' ∷ b'e' ∷ b'_' ∷ b'n' ∷ b'a' ∷ b'm' ∷ b'e' ∷ []

abbrev pub level : Text
level = b'l' ∷ b'e' ∷ b'v' ∷ b'e' ∷ b'l' ∷ []

abbrev pub console : Text
console = b'c' ∷ b'o' ∷ b'n' ∷ b's' ∷ b'o' ∷ b'l' ∷ b'e' ∷ []

abbrev pub max_lines : Text
max_lines = b'm' ∷ b'a' ∷ b'x' ∷ b'_' ∷ b'l' ∷ b'i' ∷ b'n' ∷ b'e' ∷ b's' ∷ []
