-- ===== src/Net/Tests.antt =====
-- Runs of the choice of addresses (crates/play-on-air/src/net.rs).
use play_on_air.Prelude.{◌≡◌, refl, ◌*◌, ◌^◌, false, [], ◌∷◌, none, some}
use play_on_air.Prelude.Text.{codes}
use play_on_air.Net.{v4, v6, select_cast_addr}
use play_on_air.Net.Local.{if_v4, preferred_local_ipv4s_for_peer}

-- 192.168.1.50 before a link-local IPv6 address.
select_run :
    select_cast_addr (v6 (0xfe80 * 2 ^ 112) 0 7 ∷ v4 0xc0a80132 0 ∷ []) none
    ≡ some (v4 0xc0a80132 0)
unfolding select_cast_addr
select_run = refl

-- The dock's address before that of the default route, as it is on the peer's net.
preferred_run :
    preferred_local_ipv4s_for_peer
      (record {
        name = codes "en0";
        loopback = false;
        index = none;
        addr = if_v4 0x0a000005 0xffffff00;
      }
        ∷ record {
          name = codes "en7";
          loopback = false;
          index = none;
          addr = if_v4 0xc0a80105 0xffffff00;
        }
        ∷ [])
      (some 0x0a000005)
      (some 0xc0a80132)
    ≡ 0xc0a80105 ∷ 0x0a000005 ∷ []
unfolding preferred_local_ipv4s_for_peer
preferred_run = refl
