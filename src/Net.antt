-- ===== src/Net.antt =====
-- crates/play-on-air/src/net.rs: which address a Cast device is reached at, and under which one this
-- host is advertised.
--
-- An IPv4 address is its 32-bit number, an IPv6 address its 128-bit number. Sockets, the name
-- service and the table of the interfaces belong to the system: Net/Hosts takes what they answer as
-- arguments.
pub mod Local
pub mod Hosts
mod Tests
use play_on_air.Prelude.{
  ℕ, ◌-◌, ◌/◌, ◌%◌, ◌^◌, Bool, false, not, ◌&&◌, ◌||◌, List, [], ◌∷◌, map, leb, ◌==◌, if◌then◌else◌,
  Option, none, some,
}

pub data SocketAddr : Type 0 where
  v4 : ℕ → ℕ → SocketAddr
  v6 : ℕ → ℕ → ℕ → SocketAddr

-- `Ipv4Addr::octets`, the first one as 3.
abbrev pub octet : ℕ → ℕ → ℕ
octet k ip = ip / 256 ^ k % 256

-- `is_unspecified` of both kinds.
abbrev pub is_unspecified : ℕ → Bool
is_unspecified ip = ip == 0

-- 224.0.0.0/4 and 255.255.255.255.
abbrev pub is_multicast4 : ℕ → Bool
is_multicast4 ip = octet 3 ip / 16 == 14

abbrev pub is_broadcast : ℕ → Bool
is_broadcast ip = ip == 2 ^ 32 - 1

-- ff00::/8 and fe80::/10.
abbrev pub is_multicast6 : ℕ → Bool
is_multicast6 ip = ip / 2 ^ 120 == 0xff

abbrev pub is_unicast_link_local : ℕ → Bool
is_unicast_link_local ip = ip / 2 ^ 118 == 0x3fa

-- `to_ipv4_mapped`: ::ffff:0:0/96.
abbrev pub to_ipv4_mapped : ℕ → Option ℕ
to_ipv4_mapped ip = if ip / 2 ^ 32 == 0xffff then some (ip % 2 ^ 32) else none

abbrev pub same_class_c : ℕ → ℕ → Bool
same_class_c a b = octet 3 a == octet 3 b && (octet 2 a == octet 2 b && octet 1 a == octet 1 b)

abbrev mapped_or : SocketAddr → ℕ → Option ℕ → SocketAddr
mapped_or addr port none = addr
mapped_or addr port (some ip) = v4 ip port

abbrev pub unmap_ipv4 : SocketAddr → SocketAddr
unmap_ipv4 (v4 ip port) = v4 ip port
unmap_ipv4 (v6 ip port scope) = mapped_or (v6 ip port scope) port (to_ipv4_mapped ip)

abbrev pub on_local_net : ℕ → Option ℕ → Bool
on_local_net ip none = false
on_local_net ip (some local) = same_class_c local ip

abbrev pub cast_addr_rank : SocketAddr → Option ℕ → Option ℕ
cast_addr_rank (v4 ip port) local_v4 =
    if is_unspecified ip || is_multicast4 ip || is_broadcast ip
    then none
    else (if on_local_net ip local_v4 then some 0 else some 1)
cast_addr_rank (v6 ip port scope) local_v4 =
    if is_unspecified ip || is_multicast6 ip
    then none
    else (if is_unicast_link_local ip then (if scope == 0 then none else some 3) else some 2)

-- The candidates that have a rank, with it.
abbrev pub with_rank : SocketAddr → Option ℕ → List (ℕ × SocketAddr) → List (ℕ × SocketAddr)
with_rank addr none ranked = ranked
with_rank addr (some rank) ranked = (rank, addr) ∷ ranked

abbrev pub rank_all : Option ℕ → List SocketAddr → List (ℕ × SocketAddr)
rank_all local_v4 [] = []
rank_all local_v4 (addr ∷ addrs) =
    with_rank addr (cast_addr_rank addr local_v4) (rank_all local_v4 addrs)

abbrev pub better : ℕ × SocketAddr → Option (ℕ × SocketAddr) → ℕ × SocketAddr
better first none = first
better (rank, addr) (some (r, a)) = if leb rank r then (rank, addr) else (r, a)

-- `min_by_key`: the first one of the least rank.
abbrev pub min_by_rank : List (ℕ × SocketAddr) → Option (ℕ × SocketAddr)
min_by_rank [] = none
min_by_rank (c ∷ cs) = some (better c (min_by_rank cs))

abbrev pub addr_of : Option (ℕ × SocketAddr) → Option SocketAddr
addr_of none = none
addr_of (some (rank, addr)) = some addr

unfoldable pub select_cast_addr : List SocketAddr → Option ℕ → Option SocketAddr
select_cast_addr candidates local_v4 =
    addr_of (min_by_rank (rank_all local_v4 (map unmap_ipv4 candidates)))

abbrev pub is_loopback6 : ℕ → Bool
is_loopback6 ip = ip == 1

abbrev pub is_routable_v6 : ℕ → Bool
is_routable_v6 ip =
    not (is_unspecified ip)
    && (not (is_loopback6 ip) && (not (is_multicast6 ip) && not (is_unicast_link_local ip)))
