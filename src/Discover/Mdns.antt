-- ===== src/Discover/Mdns.antt =====
-- The browser on Linux (crates/play-on-air/src/discover.rs).
--
-- `mdns-sd` gives the services and the events. `format_host` stands for `net::format_ip_host`, which
-- prints an address, and `local_v4` is the address that this host advertises.
use play_on_air.Prelude.{
  ℕ, Bool, true, false, ◌&&◌, ◌||◌, List, [], ◌∷◌, map, ltb, ◌==◌, if◌then◌else◌, Option, none,
  some,
}
use play_on_air.Prelude.Text.{Text, codes, starts_with, trim}
use play_on_air.Config.{non_empty, unwrap_or}
use play_on_air.Registry.{DeviceRegistry, Device, new_device, with_model}
use play_on_air.Net.{SocketAddr, v4, v6, select_cast_addr}
use play_on_air.Discover.Parse.{trim_end_matches}
use play_on_air.Discover.Service.{
  CastService, classify_cast_service, without_dashes, port_of, resolve_cast_host, service_seen,
}

-- `mdns_sd::ScopedIp`.
pub data ScopedIp : Type 0 where
  ip4 : ℕ → ScopedIp
  ip6 : ℕ → ℕ → ScopedIp

-- `mdns_sd::ResolvedService`, by what its getters give.
pub record ResolvedService : Type 0 where
  pub property : Text → Option Text
  pub fullname : Text
  pub service_host : Text
  pub addresses : List ScopedIp
  pub service_port : ℕ

-- `split(p).next()`: what stands before the first `p`.
unfoldable pub before_first : Text → Text → Text
unfolding starts_with
before_first p [] = []
before_first p (c ∷ cs) =
    let rest = before_first p cs in if starts_with (c ∷ cs) p then [] else c ∷ rest

unfoldable pub instance_from_mdns_fullname : Text → Text
unfolding before_first trim
instance_from_mdns_fullname fullname =
    unwrap_or fullname (non_empty (some (trim (before_first (codes "._googlecast._tcp") fullname))))

abbrev pub to_socket_addr : ScopedIp → SocketAddr
to_socket_addr (ip4 ip) = v4 ip 0
to_socket_addr (ip6 ip scope) = v6 ip 0 scope

-- The order of `SocketAddr`: IPv4 first, then by address, port and scope.
abbrev pub addr_before : SocketAddr → SocketAddr → Bool
addr_before (v4 a p) (v4 b q) = ltb a b || a == b && ltb p q
addr_before (v4 a p) (v6 b q t) = true
addr_before (v6 a p s) (v4 b q) = false
addr_before (v6 a p s) (v6 b q t) = ltb a b || a == b && (ltb p q || p == q && ltb s t)

abbrev pub insert_addr : SocketAddr → List SocketAddr → List SocketAddr
insert_addr a [] = a ∷ []
insert_addr a (b ∷ bs) =
    let later = insert_addr a bs in if addr_before b a then b ∷ later else a ∷ b ∷ bs

-- `sort_unstable`.
abbrev pub sort_addrs : List SocketAddr → List SocketAddr
sort_addrs [] = []
sort_addrs (a ∷ bs) = insert_addr a (sort_addrs bs)

-- What `recv_timeout` gives.
pub data MdnsEvent : Type 0 where
  service_resolved : ResolvedService → MdnsEvent
  service_removed search_stopped other_event disconnected timed_out : MdnsEvent

module _ (resolve_host : Text → Option Text) (format_host : SocketAddr → Text)
    (local_v4 : Option ℕ) where
  abbrev pub host_of : Text → Option SocketAddr → Text
  unfolding resolve_cast_host
  host_of hostname none = resolve_cast_host resolve_host hostname
  host_of hostname (some addr) = format_host addr

  unfoldable pub mdns_device : ℕ → ResolvedService → Device
  unfolding instance_from_mdns_fullname new_device with_model select_cast_addr trim_end_matches
      resolve_cast_host
  mdns_device now s =
      let name = instance_from_mdns_fullname s.fullname in
      let hostname = trim_end_matches b'.' s.service_host in
      let candidates = sort_addrs (map to_socket_addr s.addresses) in
      with_model (unwrap_or (codes "") (s.property (codes "md"))) (
        new_device now (unwrap_or name (non_empty (s.property (codes "id"))))
          (unwrap_or (without_dashes name) (non_empty (s.property (codes "fn"))))
          (host_of hostname (select_cast_addr candidates local_v4)) hostname
          (port_of s.service_port) name)

  unfoldable pub cast_service_from_mdns_resolved : ℕ → ResolvedService → CastService
  unfolding mdns_device classify_cast_service
  cast_service_from_mdns_resolved now s =
      classify_cast_service (mdns_device now s) (s.property (codes "ca"))

  -- Whether the session ends with an event.
  abbrev pub ends_session : MdnsEvent → Bool
  ends_session (service_resolved s) = false
  ends_session service_removed = false
  ends_session search_stopped = true
  ends_session other_event = false
  ends_session disconnected = true
  ends_session timed_out = false

  unfoldable pub mdns_event : ℕ → MdnsEvent → DeviceRegistry → DeviceRegistry
  unfolding service_seen cast_service_from_mdns_resolved
  mdns_event now (service_resolved s) r = service_seen now (cast_service_from_mdns_resolved now s) r
  mdns_event now service_removed r = r
  mdns_event now search_stopped r = r
  mdns_event now other_event r = r
  mdns_event now disconnected r = r
  mdns_event now timed_out r = r

  -- The loop over the events, each with the shutdown flag that the loop reads before it and with
  -- its time.
  unfoldable pub mdns_session : List (Bool × ℕ × MdnsEvent) → DeviceRegistry → DeviceRegistry
  unfolding mdns_event
  mdns_session [] r = r
  mdns_session ((shutdown, now, event) ∷ events) r =
      let r' = mdns_event now event r in
      let rest = mdns_session events r' in
      if shutdown then r else (if ends_session event then r' else rest)
