-- ===== src/Bridge/Tests.antt =====
-- The bridge (crates/play-on-air/src/bridge) at concrete inputs.
mod Sessions
mod Groups
use play_on_air.Prelude.{
  ℕ, ◌≡◌, ◌↔◌, refl, true, false, List, [], ◌∷◌, if◌then◌else◌, none, some, arith,
}
use play_on_air.Prelude.Text.{codes, same_text}
use play_on_air.Audio.PcmRing.{PcmRing}
use play_on_air.Media.State.{AppState, empty}
use play_on_air.Cast.{no_track}
use play_on_air.Bridge.State.{
  flac_live, wav_buffered, FlacStrikeReason, media_recovered, stall_watchdog_reload, PlayingSession,
  playing, Bridge, select_egress,
}
use play_on_air.Bridge.Fallback.{switch_playing_to_wav, remember_flac_fallback, remembered}
use play_on_air.Bridge.Fallback.Strikes.{strikes, HasPair, strikes-HasPair}
use play_on_air.Bridge.Fallback.Switch.{
  Switched, switch_playing_to_wav-Switched, remember-select_egress,
}
use play_on_air.Bridge.Group.Owner.{session_group}
use play_on_air.Bridge.Stall.Terminal.{end_owned, terminal_stall_end}
use play_on_air.Bridge.Stall.{
  rests, stall_watchdog_tick, note_stall_reload_and_flac_strike, owe_stall_reload, snapshot_of,
}
use play_on_air.Bridge.Stall.Watchdog.{acts, is_stall, tick_stale, tick-is_stall}

abbrev media_state : AppState
media_state = record {
  content = empty;
  live_generation = 0;
  max_body_bytes = 44;
  bytes_served = 0;
  last_body_write = some 1;
  rollover = 0;
  artwork = none;
}

abbrev session : PlayingSession
session = record {
  media = media_state;
  device_id = codes "a";
  route = record { media = codes "a"; volume = codes "a" };
  group = none;
  ring = 0;
  source = none;
  stream_url = [];
  channels = 2;
  sample_rate = 44100;
  egress = flac_live;
  paused = false;
  playback_paused = false;
  paused_at = none;
  flush_reload_requested = 0;
  flush_reload_done = 0;
  last_stall_reload_at = none;
  stall_reload_owed = false;
  started_at = 0;
  flac_strike = some (5, media_recovered);
  rollover_running = false;
  session_alive = true;
  late_stop_allowed = true;
  last_volume_linear = none;
  track = no_track;
  reload_in_flight = false;
}

abbrev shared : Bridge
shared = record {
  devices = (codes "a", record { generation = 4; state = playing 4 session }) ∷ [];
  flac_fallback = [];
  groups = [];
}

abbrev rings : ℕ → PcmRing ℕ
rings r = record {
  channels = 2;
  buf = 1 ∷ 2 ∷ [];
  capacity_samples = 8;
  frames_dropped_overflow = 0;
  underrun_polls = 0;
}

abbrev hits : List (ℕ × FlacStrikeReason)
hits = (100_000_000_000, stall_watchdog_reload) ∷ (150_000_000_000, media_recovered) ∷ []

strikes-HasPair_example : ((strikes hits session).0 ≡ true) ↔ HasPair session.flac_strike hits
strikes-HasPair_example = strikes-HasPair hits session

switch_playing_to_wav-Switched_example :
    Switched 9 (codes "a") 4 shared (switch_playing_to_wav 9 (codes "a") 4 shared)
switch_playing_to_wav-Switched_example = switch_playing_to_wav-Switched 9 (codes "a") 4 shared

remember-select_egress_example :
    select_egress (remembered (codes "b") (remember_flac_fallback (codes "a") shared).flac_fallback)
    ≡ (if same_text (codes "b") (codes "a")
        then wav_buffered
        else select_egress (remembered (codes "b") shared.flac_fallback))
remember-select_egress_example = remember-select_egress (codes "b") (codes "a") shared

tick_stale_example :
    (stall_watchdog_tick rings 9 (codes "a") 3 shared ≡ (rests, shared))
    × (note_stall_reload_and_flac_strike 9 (codes "a") 3 shared ≡ (none, shared))
    × (owe_stall_reload (codes "a") 3 shared ≡ (false, shared))
    × (terminal_stall_end (codes "a") 3 shared ≡ (
      record {
        session = none;
        session_host = (end_owned (session_group (codes "a") shared) shared).0.1;
        kicked = codes "a" ∷ (end_owned (session_group (codes "a") shared) shared).0.0;
      },
      (end_owned (session_group (codes "a") shared) shared).1,
    ))
unfolding same_text
tick_stale_example = tick_stale rings 9 (codes "a") 3 shared (λ e. absurd (omega (arith, e)))

tick-is_stall_example :
    acts (stall_watchdog_tick rings 9_000_000_000 (codes "a") 4 shared).0
    ≡ is_stall 9_000_000_000 (snapshot_of rings session)
unfolding same_text
tick-is_stall_example = tick-is_stall rings 9_000_000_000 (codes "a") 4 session shared refl
