-- ===== src/Lib.antt =====
-- play-on-air: an AirPlay receiver for every Google Cast device of the network
-- (crates/play-on-air). AirPlay audio is pushed to a PCM ring; a pump may move it on to
-- the ring of another session; the media server streams the ring to the Cast device
-- as WAV or FLAC over HTTP, in real time, in bodies of bounded length that roll over.
--
-- Files and the code they model:
-- - Prelude, with Prelude/Words, Bytes, Text, Tests and Lists: what the parts share. An
--   unsigned word is a number with its wrap-around or its saturation written out; text is
--   a list of code points.
-- - Error: the error type of error.rs and its Result.
-- - Audio/PcmRing: PcmRing of audio/pcm.rs, one function per method (push_f32, pop_i16,
--   pop_f32, clear), and the tick of RingPump of bridge/state.rs (pump_chunks, pump_tick).
--   The lock makes every method one step. A sample is of any type.
-- - Audio/Wav: wav_header and continuous_wav_header of audio/wav.rs, byte by byte.
-- - Audio/Flac: the block alignment, guards, errors and frame counter of audio/flac.rs. The
--   answers of the encoder library are a parameter (FlacLibrary).
-- - Media/Pace: pace_plan and pace_realtime_shared of media/http.rs. Instants are
--   nanoseconds, and the readings of the clock are arguments.
-- - Media/State: the state of media/http.rs and the operations of its handle (set_content,
--   invalidate_live, end_live_bodies, ...). Media/Server: its routes (serve_stream,
--   serve_stream_head, serve_artwork), as functions of the state. Whether a text is a header value, and the
--   bytes of a FLAC stream header, are parameters.
-- - Media/LiveWav: the body of a live WAV response of media/http.rs. `turn` is one turn of
--   the stream's closure. Media/LiveWav/Runs interleaves turns and pacing sleeps with
--   pushes to the ring and with other requests, in any order.
-- - Media/LiveFlac: the body of a live FLAC response, in the same way. The encoder
--   library is a parameter.
-- - Registry: DeviceRegistry of registry.rs, one function per method; Registry/Presence has
--   what is promised of one device. A `HashMap` is a list of entries (Prelude/Maps).
-- - Cast: the LOAD request and the commands of cast/mod.rs. The receiver, reached over the
--   warm pool, is asked by commands, and its answers are arguments.
-- - Bridge/State: the slots of bridge/state.rs, a generation and a state for each device, and
--   what the modelled parts use of a session. Bridge/Slots has what an update of it does.
-- - Bridge/Fallback: bridge/fallback.rs, strikes and the switch of a session to WAV.
-- - Bridge/Stall: bridge/stall.rs, the watchdog's tick, cut where it awaits a re-LOAD. The
--   outcome of the re-LOAD is read. Stall/Terminal has the end of a session that cannot be mended.
-- - Bridge/Playback: bridge/playback.rs, what a pause, a resume and a flush write, and when
--   the Cast commands that they spawn go out.
-- - Bridge/Gates and Bridge/Load: bridge/load.rs, the LOAD with its late STOP, the gates
--   (reload_gate, accept_reload), and reload_playing_media cut at its awaits (`begin_reload`,
--   `poll`). Load/Flights interleaves it with pauses, resumes and flushes.
-- - Bridge/Prebuffer and Bridge/Start: bridge/start.rs, its waits, accept_start, the first
--   LOAD with the fallback to WAV, and the install. Bridge/Teardown: bridge/teardown.rs, the
--   flags, the media and the commands of a teardown, and what takes a session from its slot.
-- - Bridge/Group: bridge/group.rs, who enters, leaves, leads and takes over a group, and the
--   plans and answers of the membership requests (Group/Owner, Group/Reconcile).
-- - Bridge/Volume: bridge/volume.rs, the route of a volume and the coalesced target of a
--   speaker group; the scaling of levels on f32 is left.
-- - Bridge/Remote: bridge/remote.rs, what a report of the Cast device writes to the session.
-- - Bridge/Life: the operations of bridge/ that write a slot or a group, as the steps of a
--   history, those of Group/Events among them. Left are only the lock of a re-LOAD and
--   follow_session_endpoint, which write neither a state nor a generation of a slot.
-- - Discover: discover.rs, the lines of dns-sd (Discover/Browse, Discover/Reachable), the TXT
--   record (Discover/Txt), the device that a service becomes (Discover/Service), and the loop of the
--   browser on Linux (Discover/Mdns).
-- - Net: net.rs, the address that a Cast device is reached at, the ranking of this host's own
--   (Net/Local) and the host of a media URL (Net/Hosts). Interfaces, name service and sockets
--   are arguments.
-- - Config: the overrides and the path choices of config.rs. Names: airplay_names of names.rs
--   and what it calls; the Unicode lower case is a parameter.
--
-- Fuel: pump_chunks takes fuel, since its loop ends only when the source runs dry; one
-- more than the source's complete frames is enough. The loop of id_suffix recurses on what
-- its length lacks to the whole id. All other recursion is structural.
--
-- Not modelled: sockets, TLS, mDNS, the configuration file and the log, which are the
-- work of libraries; vendor/shairplay, a copy of another project; tasks, timers and their
-- joins, which are tokio's; and the event workers of bridge, cast and
-- airplay beyond what is listed above.
pub mod Audio
pub mod Bridge
pub mod Cast
pub mod Config
pub mod Discover
pub mod Error
pub mod Media
pub mod Names
pub mod Net
pub mod Prelude
pub mod Registry
