-- ===== src/Net/Hosts.antt =====
-- The hosts to connect to and to advertise (crates/play-on-air/src/net.rs).
use play_on_air.Prelude.{
  ℕ, Bool, false, ◌||◌, List, [], ◌∷◌, ◌++◌, if◌then◌else◌, Option, none, some, ◌>>=◌,
}
use play_on_air.Prelude.Text.{Text, is_empty, same_text, trim}
use play_on_air.Discover.Parse.{trim_end_matches}
use play_on_air.Net.{SocketAddr, v4, v6, is_unspecified, is_unicast_link_local, select_cast_addr}
use play_on_air.Net.Local.{
  Interface, preferred_local_ipv4s, preferred_local_ipv4s_for_peer, routable_ipv6_on_interface,
  first_of, or_addr, is_advertiseable_v4,
}

-- `trim().trim_end_matches('.')`.
unfoldable pub trimmed_host : Text → Text
unfolding trim trim_end_matches
trimmed_host host = trim_end_matches b'.' (trim host)

abbrev pub or_resolved : Option SocketAddr → Option SocketAddr → Option SocketAddr
or_resolved none o = o
or_resolved (some addr) o = some addr

-- `literal` is `parse_ip_host`; `to_socket_addrs` asks the name service of the system.
unfoldable pub resolve_host_addr :
    (Text → Option SocketAddr) → (Text → Option (List SocketAddr)) → Text → Option SocketAddr
unfolding trimmed_host select_cast_addr
resolve_host_addr literal to_socket_addrs hostname =
    let host = trimmed_host hostname in
    if is_empty host
    then none
    else or_resolved (literal host) (do addrs ← to_socket_addrs host; select_cast_addr addrs none)

abbrev pub has_text : Text → List Text → Bool
has_text s [] = false
has_text s (t ∷ ts) = same_text t s || has_text s ts

-- The closure `push`.
unfoldable pub push_host : Text → List Text → List Text
unfolding same_text
push_host s out = if is_empty s || has_text s out then out else out ++ (s ∷ [])

unfoldable pub push_resolved : Option Text → List Text → List Text
unfolding push_host
push_resolved none out = out
push_resolved (some ip) out = push_host ip out

module _ (resolve_host_ipv4 : Text → Option Text) where
  unfoldable pub push_hostname : Option Text → List Text → List Text
  unfolding push_host push_resolved trimmed_host
  push_hostname none out = out
  push_hostname (some raw_hn) out =
      let name = trimmed_host raw_hn in push_host name (push_resolved (resolve_host_ipv4 name) out)

  unfoldable pub cast_connect_hosts : Text → Option Text → List Text
  unfolding push_host push_resolved push_hostname trimmed_host
  cast_connect_hosts host hostname =
      push_hostname hostname
        (push_host (trimmed_host host) (push_resolved (resolve_host_ipv4 host) []))

-- 8.8.8.8 and 127.0.0.1.
abbrev pub public_dns : ℕ
public_dns = 0x08080808

abbrev pub localhost : ℕ
localhost = 0x7f000001

abbrev pub or_loopback : Option ℕ → ℕ
or_loopback none = localhost
or_loopback (some ip) = ip

-- The host of a media URL: IPv6 in brackets.
pub data UrlHost : Type 0 where
  host_v4 : ℕ → UrlHost
  host_v6 : ℕ → UrlHost

-- `udp_source4` and `udp_source` are the addresses that the kernel picks toward a destination.
module _ (ifaces : List Interface) (default_route_ip : Option ℕ) (udp_source4 : ℕ → ℕ → Option ℕ)
    (udp_source : ℕ → ℕ → Option ℕ) where
  abbrev pub if_advertiseable : Option ℕ → Option ℕ
  if_advertiseable none = none
  if_advertiseable (some ip) = if is_advertiseable_v4 ip then some ip else none

  unfoldable pub udp_discover_ipv4 : ℕ → ℕ → Option ℕ
  udp_discover_ipv4 dest port = if_advertiseable (udp_source4 dest port)

  unfoldable pub advertise_host_ip : ℕ
  unfolding preferred_local_ipv4s udp_discover_ipv4
  advertise_host_ip = or_loopback (
      or_addr (first_of (preferred_local_ipv4s ifaces default_route_ip))
        (udp_discover_ipv4 public_dns 80))

  abbrev pub routable_or : ℕ → Option ℕ → ℕ
  routable_or source none = source
  routable_or source (some ip) = ip

  abbrev pub source_for : ℕ → Option ℕ → Option ℕ
  unfolding routable_ipv6_on_interface
  source_for scope none = none
  source_for scope (some source) =
      if is_unspecified source
      then none
      else (if is_unicast_link_local source
          then some (routable_or source (routable_ipv6_on_interface scope ifaces))
          else some source)

  unfoldable pub advertise_ipv6_for_peer : ℕ → ℕ → Option ℕ
  advertise_ipv6_for_peer ip scope = source_for scope (udp_source ip scope)

  abbrev pub host_or : Option UrlHost → UrlHost
  unfolding advertise_host_ip
  host_or none = host_v4 advertise_host_ip
  host_or (some host) = host

  unfoldable pub reach_peer : Option SocketAddr → Option UrlHost
  unfolding preferred_local_ipv4s_for_peer advertise_ipv6_for_peer udp_discover_ipv4
  reach_peer none = none
  reach_peer (some (v4 ip port)) = do
    local ←
        or_addr (first_of (preferred_local_ipv4s_for_peer ifaces default_route_ip (some ip)))
          (udp_discover_ipv4 ip 8009)
    some (host_v4 local)
  reach_peer (some (v6 ip port scope)) = do
    local ← advertise_ipv6_for_peer ip scope
    some (host_v6 local)

  unfoldable pub advertise_host_for_peer :
      (Text → Option SocketAddr) → (Text → Option (List SocketAddr)) → Text → UrlHost
  unfolding advertise_host_ip reach_peer resolve_host_addr trimmed_host
  advertise_host_for_peer literal to_socket_addrs peer_host =
      let peer = trimmed_host peer_host in
      if is_empty peer
      then host_v4 advertise_host_ip
      else host_or (reach_peer (resolve_host_addr literal to_socket_addrs peer))
