-- ===== src/Net/Local.antt =====
-- The ranking of this host's addresses (crates/play-on-air/src/net.rs).
--
-- `ifaces` is the table that `get_if_addrs` gives, and `default_route_ip` the address of the default
-- route.
use play_on_air.Prelude.{
  ℕ, ◌+◌, ◌-◌, Bool, false, not, ◌&&◌, ◌||◌, List, [], ◌∷◌, ltb, ◌==◌, if◌then◌else◌, Option, none,
  some,
}
use play_on_air.Prelude.Text.{Text, codes, same_text, starts_with}
use play_on_air.Net.{
  octet, is_unspecified, is_multicast4, is_broadcast, same_class_c, is_routable_v6,
}
use Prim.Native.Nat.{bit_and}

-- `IfAddr`: an address, and its netmask where it is used.
pub data IfAddr : Type 0 where
  if_v4 : ℕ → ℕ → IfAddr
  if_v6 : ℕ → IfAddr

pub record Interface : Type 0 where
  pub name : Text
  pub loopback : Bool
  pub index : Option ℕ
  pub addr : IfAddr

-- 127.0.0.0/8.
abbrev pub is_loopback4 : ℕ → Bool
is_loopback4 ip = octet 3 ip == 127

abbrev pub is_advertiseable_v4 : ℕ → Bool
is_advertiseable_v4 ip =
    not (is_unspecified ip)
    && (not (is_loopback4 ip) && (not (is_multicast4 ip) && not (is_broadcast ip)))

unfoldable pub is_blacklisted_iface : Text → Bool
unfolding same_text starts_with
is_blacklisted_iface name =
    same_text name (codes "docker0")
    || same_text name (codes "hassio")
    || starts_with name (codes "veth")
    || starts_with name (codes "br-")
    || starts_with name (codes "tun")
    || starts_with name (codes "tap")
    || starts_with name (codes "wg")
    || starts_with name (codes "tailscale")

abbrev pub is_primary : Text → Bool
is_primary name =
    same_text name (codes "en0") || same_text name (codes "eth0") || same_text name (codes "end0")

abbrev pub is_dock : Text → Bool
is_dock name =
    same_text name (codes "en7") || same_text name (codes "en8") || same_text name (codes "en9")

abbrev pub is_wired : Text → Bool
is_wired name =
    starts_with name (codes "en")
    || starts_with name (codes "eth")
    || starts_with name (codes "end")

abbrev pub is_wireless : Text → Bool
is_wireless name = starts_with name (codes "wlan") || starts_with name (codes "wlp")

abbrev pub is_virtual : Text → Bool
is_virtual name =
    starts_with name (codes "bridge")
    || starts_with name (codes "vmenet")
    || starts_with name (codes "utun")
    || starts_with name (codes "awdl")

-- `none` stands for -1, the only negative preference.
unfoldable pub iface_preference : Text → Option ℕ
unfolding is_blacklisted_iface
iface_preference name =
    if is_blacklisted_iface name
    then none
    else (if is_primary name
        then some 0
        else (if is_wired name
            then some (if is_dock name then 50 else 10)
            else (if is_wireless name
                then some 5
                else (if is_virtual name then none else some 40))))

abbrev pub is_link_local4 : ℕ → Bool
is_link_local4 ip = octet 3 ip == 169 && octet 2 ip == 254

abbrev pub same_net : ℕ → ℕ → Option ℕ → Bool
same_net ip mask none = false
same_net ip mask (some peer) = bit_and ip mask == bit_and peer mask || same_class_c ip peer

abbrev pub is_route : Option ℕ → ℕ → Bool
is_route none ip = false
is_route (some route) ip = route == ip

-- What `rank` may lose; every rank is kept with this much added, so that it is a number.
abbrev pub rank_bias : ℕ
rank_bias = 120

abbrev pub rank_of : ℕ → Bool → Bool → ℕ
rank_of score on_net on_route =
    score + rank_bias - (if on_net then 100 else 0) - (if on_route then 20 else 0)

-- The sort by rank and then by octets.
abbrev pub insert_ranked : ℕ × ℕ → List (ℕ × ℕ) → List (ℕ × ℕ)
insert_ranked c [] = c ∷ []
insert_ranked (rank, ip) ((r, i) ∷ cs) =
    let later = insert_ranked (rank, ip) cs in
    if ltb r rank || r == rank && ltb i ip then (r, i) ∷ later else (rank, ip) ∷ (r, i) ∷ cs

abbrev pub push_scored : Option ℕ → ℕ → Bool → Bool → List (ℕ × ℕ) → List (ℕ × ℕ)
push_scored none ip on_net on_route scored = scored
push_scored (some score) ip on_net on_route scored =
    insert_ranked (rank_of score on_net on_route, ip) scored

abbrev pub has_ip : ℕ → List ℕ → Bool
has_ip ip [] = false
has_ip ip (i ∷ ips) = ip == i || has_ip ip ips

-- The loop that drops repetitions; `seen` is `out` so far, the last one first.
abbrev pub distinct : List ℕ → List (ℕ × ℕ) → List ℕ
distinct seen [] = []
distinct seen ((rank, ip) ∷ cs) =
    if has_ip ip seen then distinct seen cs else ip ∷ distinct (ip ∷ seen) cs

abbrev pub first_of : List ℕ → Option ℕ
first_of [] = none
first_of (ip ∷ ips) = some ip

module _ (ifaces : List Interface) (default_route_ip : Option ℕ) where
  -- The guards of the loop, and the rank of what passes them.
  unfoldable pub score_iface : Option ℕ → Interface → IfAddr → List (ℕ × ℕ) → List (ℕ × ℕ)
  unfolding iface_preference
  score_iface peer iface (if_v6 ip) scored = scored
  score_iface peer iface (if_v4 ip mask) scored =
      if iface.loopback || (not (is_advertiseable_v4 ip) || is_link_local4 ip)
      then scored
      else push_scored (iface_preference iface.name) ip (same_net ip mask peer)
          (is_route default_route_ip ip) scored

  unfoldable pub score_all : Option ℕ → List Interface → List (ℕ × ℕ)
  unfolding score_iface
  score_all peer [] = []
  score_all peer (iface ∷ rest) = score_iface peer iface iface.addr (score_all peer rest)

  unfoldable pub preferred_local_ipv4s_for_peer : Option ℕ → List ℕ
  unfolding score_all
  preferred_local_ipv4s_for_peer peer = distinct [] (score_all peer ifaces)

  unfoldable pub preferred_local_ipv4s : List ℕ
  unfolding preferred_local_ipv4s_for_peer
  preferred_local_ipv4s = preferred_local_ipv4s_for_peer none

abbrev pub has_index : ℕ → Option ℕ → Bool
has_index index none = false
has_index index (some i) = i == index

abbrev pub routable_addr : IfAddr → Option ℕ
routable_addr (if_v4 ip mask) = none
routable_addr (if_v6 ip) = if is_routable_v6 ip then some ip else none

abbrev pub or_addr : Option ℕ → Option ℕ → Option ℕ
or_addr none o = o
or_addr (some ip) o = some ip

abbrev pub find_routable : ℕ → List Interface → Option ℕ
find_routable index [] = none
find_routable index (iface ∷ rest) =
    or_addr (if has_index index iface.index then routable_addr iface.addr else none)
      (find_routable index rest)

unfoldable pub routable_ipv6_on_interface : ℕ → List Interface → Option ℕ
routable_ipv6_on_interface index ifaces = if index == 0 then none else find_routable index ifaces
