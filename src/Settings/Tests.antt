-- ===== src/Settings/Tests.antt =====
-- The options on small inputs.
use redisproxy.Base.{◌≡◌, refl, true, Option, none, some, [], ◌∷◌, Bytes}
use redisproxy.Base.Int.{ℤ, pos}
use redisproxy.Error.{ok}
use redisproxy.Settings.{codes, connections_defaults, proxy_defaults, load_proxy}
use redisproxy.Settings.Table.{Stores, load_connections-Stores}

-- One digit.
abbrev stoi : Bytes → Option ℤ
stoi [] = none
stoi (x ∷ []) = some (pos 7)
stoi (x ∷ y ∷ xs) = none

load_connections-Stores_example :
    Stores stoi (codes "ConnPoolSize") (codes "7") (connections_defaults (codes "client"))
load_connections-Stores_example =
    load_connections-Stores stoi (codes "ConnPoolSize") (codes "7")
      (connections_defaults (codes "client"))

in_cluster :
    load_proxy stoi (codes "ClusterMode") (codes "1") (proxy_defaults (pos 0))
    ≡ some (ok, record (proxy_defaults (pos 0)) { cluster_mode = true })
unfolding load_proxy
in_cluster = refl
