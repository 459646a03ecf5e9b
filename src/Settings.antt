-- ===== src/Settings.antt =====
-- src/options.h and src/options.cpp, `ConnectionOptions` of src/connections.h, `NetIoOptions` of src/io.h and
-- `LoggerOptions` of src/logger.h: the options of the program, and how a key and a value are loaded.
-- `std::stoi` is a parameter, `none` for the exception that it throws.
pub mod Table
mod Tests
use Prim.Native.Char.{code}
use Prim.Native.String.{String}
use redisproxy.Base.{
  ℕ, zero, suc, Bool, true, false, not, ◌&&◌, Option, none, some, List, [], ◌∷◌, Bytes, ◌==◌,
  if◌then◌else◌,
}
use redisproxy.Base.Int.{ℤ, pos, to_size, ◌==ℤ◌}
use redisproxy.Error.{Error, ok, unknown}

-- The bytes of a text of the source.
abbrev pub codes : String → Bytes
codes String.[] = []
codes (String.◌∷◌ c s) = code c ∷ codes s

-- `operator==` of strings.
abbrev pub same : Bytes → Bytes → Bool
same [] [] = true
same [] (y ∷ ys) = false
same (x ∷ xs) [] = false
same (x ∷ xs) (y ∷ ys) = (x == y) && same xs ys

-- `SingularOptions`
pub record SingularOptions : Type 0 where
  pub password : Bytes
  pub upstream_host : Bytes
  pub upstream_port : ℤ

-- `LoggerOptions`
pub record LoggerOptions : Type 0 where
  pub level : ℤ
  pub log_filename : Bytes

-- `NetIoOptions`
pub record NetIoOptions : Type 0 where
  pub listen_backlog : ℤ
  pub socket_no_delay : Bool
  pub socket_non_block : Bool
  pub socket_keep_alive : ℤ

-- `ConnectionOptions`
pub record ConnectionOptions : Type 0 where
  pub net_opt : NetIoOptions
  pub read_buffer_init_size : ℕ
  pub read_buffer_min_size : ℕ
  pub conn_send_buffer_count : ℕ
  pub conn_pool_size : ℕ
  pub name : Bytes

-- `ProxyOptions`, with the options that it owns.
pub record ProxyOptions : Type 0 where
  pub logger_opt : LoggerOptions
  pub client_opt : ConnectionOptions
  pub upstream_opt : ConnectionOptions
  pub bind_host : Bytes
  pub bind_port : ℤ
  pub cluster_mode : Bool
  pub singular_opt : SingularOptions

-- `SingularOptions()`
abbrev pub singular_defaults : SingularOptions
singular_defaults = record {
  password = [];
  upstream_host = codes "127.0.0.1";
  upstream_port = pos 6300;
}

-- `NetIoOptions()`
abbrev pub net_io_defaults : NetIoOptions
net_io_defaults = record {
  listen_backlog = pos 1024;
  socket_no_delay = true;
  socket_non_block = true;
  socket_keep_alive = pos 0;
}

-- `ConnectionOptions( n )`
abbrev pub connections_defaults : Bytes → ConnectionOptions
connections_defaults n = record {
  net_opt = net_io_defaults;
  read_buffer_init_size = 16384;
  read_buffer_min_size = 1024;
  conn_send_buffer_count = 10000;
  conn_pool_size = 768;
  name = n;
}

-- `ProxyOptions()`; the level of a new `LoggerOptions` is not set.
abbrev pub proxy_defaults : ℤ → ProxyOptions
proxy_defaults level = record {
  logger_opt = record { level = level; log_filename = [] };
  client_opt = connections_defaults (codes "client");
  upstream_opt = connections_defaults (codes "upstream");
  bind_host = codes "0.0.0.0";
  bind_port = pos 9877;
  cluster_mode = false;
  singular_opt = singular_defaults;
}

-- The conversion of an `int` to `bool`.
abbrev pub truth : ℤ → Bool
truth n = not (n ==ℤ pos 0)

-- What `Load` comes to: a status and the options, or `none` for an exception.
abbrev pub Loaded : Type 0 → Type 0
Loaded A = Option (Error × A)

-- A field that is set to the number that `std::stoi` gives.
abbrev pub number : {A : Type 0} → Option ℤ → (ℤ → A) → Loaded A
number none set = none
number (some n) set = some (ok, set n)

module _ (stoi : Bytes → Option ℤ) where
  -- `SingularOptions::Load( key, value )`
  unfoldable pub load_singular : Bytes → Bytes → SingularOptions → Loaded SingularOptions
  load_singular key value o =
      if same key (codes "Password")
      then some (ok, record o { password = value })
      else if same key (codes "UpstreamHost")
      then some (ok, record o { upstream_host = value })
      else if same key (codes "UpstreamPort")
      then number (stoi value) (λ n. record o { upstream_port = n })
      else some (unknown, o)

  -- `LoggerOptions::Load( key, value )`
  unfoldable pub load_logger : Bytes → Bytes → LoggerOptions → Loaded LoggerOptions
  load_logger key value o =
      if same key (codes "Level")
      then number (stoi value) (λ n. record o { level = n })
      else if same key (codes "LogFilename")
      then some (ok, record o { log_filename = value })
      else some (unknown, o)

  -- `NetIoOptions::Load( key, value )`
  unfoldable pub load_net_io : Bytes → Bytes → NetIoOptions → Loaded NetIoOptions
  load_net_io key value o =
      if same key (codes "ListenBacklog")
      then number (stoi value) (λ n. record o { listen_backlog = n })
      else if same key (codes "SocketNoDelay")
      then number (stoi value) (λ n. record o { socket_no_delay = truth n })
      else if same key (codes "SocketNonBlock")
      then number (stoi value) (λ n. record o { socket_non_block = truth n })
      else if same key (codes "SocketKeepAlive")
      then number (stoi value) (λ n. record o { socket_keep_alive = n })
      else some (unknown, o)

  -- `ConnectionOptions::Load( key, value )`; an `int` becomes a `std::size_t`.
  unfoldable pub load_connections : Bytes → Bytes → ConnectionOptions → Loaded ConnectionOptions
  load_connections key value o =
      if same key (codes "ReadBufferInitSize")
      then number (stoi value) (λ n. record o { read_buffer_init_size = to_size n })
      else if same key (codes "ReadBufferMinSize")
      then number (stoi value) (λ n. record o { read_buffer_min_size = to_size n })
      else if same key (codes "ConnSendBufferCount")
      then number (stoi value) (λ n. record o { conn_send_buffer_count = to_size n })
      else if same key (codes "ConnPoolSize")
      then number (stoi value) (λ n. record o { conn_pool_size = to_size n })
      else some (unknown, o)

  -- `ProxyOptions::Load( key, value )`
  unfoldable pub load_proxy : Bytes → Bytes → ProxyOptions → Loaded ProxyOptions
  load_proxy key value o =
      if same key (codes "BindHost")
      then some (ok, record o { bind_host = value })
      else if same key (codes "ClusterMode")
      then number (stoi value) (λ n. record o { cluster_mode = truth n })
      else if same key (codes "BindPort")
      then number (stoi value) (λ n. record o { bind_port = n })
      else some (unknown, o)
