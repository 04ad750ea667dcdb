-- ===== src/Bridge/Stall/Watchdog.antt =====
-- What a tick of the stall watchdog does (bridge/stall.rs).
use play_on_air.Prelude.{
  ℕ, ◌-◌, ◌≡◌, ◌≢◌, ◌⊎◌, refl, ap, ◌∙◌, inl, inr, Bool, true, false, not, ◌∷◌, ◌&&◌, ◌||◌, ◌==◌,
  if◌then◌else◌, ltb, Option, none, some, Bool-cases, ==_iff, arith,
}
use play_on_air.Prelude.Text.{Text}
use play_on_air.Audio.PcmRing.{PcmRing}
use play_on_air.Bridge.State.{
  EgressKind, FlacStrikeReason, PlayingSession, DeviceState, idle, starting, playing, following,
  Bridge, state_at,
}
use play_on_air.Bridge.Fallback.{
  flac_fallback_window, is_flac, switch_playing_to_wav, remember_flac_fallback,
}
use play_on_air.Bridge.Teardown.{take_if, take_live_session_if_gen}
use play_on_air.Bridge.Group.Owner.{session_group}
use play_on_air.Bridge.Stall.Terminal.{end_owned, terminal_stall_end}
use play_on_air.Bridge.Stall.{
  StallAction, no_action, early_flac_fallback, terminal_end, reload, stall_action, StallSnapshot,
  body_is_stale, age_of, is_repeat, action_for, Next, rests, reloads_after_switch,
  reloads_after_strike, reloads_media, ends, snapshot_of, snapshot_state, stall_snapshot,
  note_state, note_stall_reload_and_flac_strike, struck, handle_stall_reload, act, switched_or,
  first_action, with_snapshot, stall_watchdog_tick, owe_state, owe_stall_reload,
}

-- A watchdog whose generation does not play any more.
abbrev pub IsStale : ℕ → DeviceState → Type 0
IsStale generation idle = Unit {0}
IsStale generation (starting g) = Unit {0}
IsStale generation (following g follower) = Unit {0}
IsStale generation (playing g session) = g ≢ generation

other_generation : (g generation : ℕ) → g ≢ generation → (g == generation) ≡ false
other_generation g generation h = ground (arith, h)

stale_snapshot :
    {A : Type 0} (rings : ℕ → PcmRing A) (generation : ℕ) (d : DeviceState)
    → IsStale generation d
    → snapshot_state rings generation d ≡ none
unfolding snapshot_state
stale_snapshot rings generation idle h = refl
stale_snapshot rings generation (starting g) h = refl
stale_snapshot rings generation (following g follower) h = refl
stale_snapshot rings generation (playing g session) h = rw (other_generation g generation h) refl

stale_note :
    (now : ℕ) (device_id : Text) (generation : ℕ) (d : DeviceState) (b : Bridge)
    → IsStale generation d
    → note_state now device_id generation d b ≡ (none, b)
unfolding note_state
stale_note now device_id generation idle b h = refl
stale_note now device_id generation (starting g) b h = refl
stale_note now device_id generation (following g follower) b h = refl
stale_note now device_id generation (playing g session) b h =
    rw (other_generation g generation h) refl

stale_owe :
    (device_id : Text) (generation : ℕ) (d : DeviceState) (b : Bridge)
    → IsStale generation d
    → owe_state device_id generation d b ≡ (false, b)
unfolding owe_state
stale_owe device_id generation idle b h = refl
stale_owe device_id generation (starting g) b h = refl
stale_owe device_id generation (following g follower) b h = refl
stale_owe device_id generation (playing g session) b h = rw (other_generation g generation h) refl

stale_take :
    (device_id : Text) (generation : ℕ) (d : DeviceState) (b : Bridge)
    → IsStale generation d
    → take_if device_id generation d b ≡ (none, b)
unfolding take_if
stale_take device_id generation idle b h = refl
stale_take device_id generation (starting g) b h = refl
stale_take device_id generation (following g follower) b h = refl
stale_take device_id generation (playing g session) b h = rw (other_generation g generation h) refl

-- A watchdog of a generation that no longer plays on its device: its tick, the mark of a re-LOAD it
-- had begun and the re-LOAD it would owe change nothing. When that re-LOAD fails, the end of the
-- session takes no session, but still ends the group that the device's present session owns and
-- kicks the device and that group's followers, whatever generation that session has.
pub tick_stale :
    {A : Type 0} (rings : ℕ → PcmRing A) (now : ℕ) (device_id : Text) (generation : ℕ) (b : Bridge)
    → IsStale generation (state_at device_id b)
    → (stall_watchdog_tick rings now device_id generation b ≡ (rests, b))
      × (note_stall_reload_and_flac_strike now device_id generation b ≡ (none, b))
      × (owe_stall_reload device_id generation b ≡ (false, b))
      × (terminal_stall_end device_id generation b ≡ (
        record {
          session = none;
          session_host = (end_owned (session_group device_id b) b).0.1;
          kicked = device_id ∷ (end_owned (session_group device_id b) b).0.0;
        },
        (end_owned (session_group device_id b) b).1,
      ))
unfolding terminal_stall_end take_live_session_if_gen stall_watchdog_tick stall_snapshot
    note_stall_reload_and_flac_strike owe_stall_reload with_snapshot
tick_stale rings now device_id generation b h = (
  rw (stale_snapshot rings generation (state_at device_id b) h) refl,
  stale_note now device_id generation (state_at device_id b) b h,
  stale_owe device_id generation (state_at device_id b) b h,
  rw (stale_take device_id generation (state_at device_id b) b h) refl,
)

-- No pause, a stale body and audio to send; a stall is that with no re-LOAD under way.
abbrev pub starves : ℕ → StallSnapshot → Bool
starves now s = not (
    s.paused
    || not (body_is_stale (age_of now s.last_write) (now - s.started_at))
    || s.ring_frames == 0)

abbrev pub is_stall : ℕ → StallSnapshot → Bool
is_stall now s = not s.reloading && starves now s

abbrev pub acts : Next → Bool
acts rests = false
acts (reloads_after_switch s) = true
acts reloads_after_strike = true
acts reloads_media = true
acts (ends reason) = true

acts-struck :
    (now : ℕ) (device_id : Text) (generation : ℕ) (o : Option FlacStrikeReason × Bridge)
    → acts (struck now device_id generation o).0 ≡ true
unfolding struck
acts-struck now device_id generation (none, b) = refl
acts-struck now device_id generation (some first_strike, b) =
    elim (Bool-cases
      (switch_playing_to_wav now device_id generation (remember_flac_fallback device_id b)).0) [
        | inl e ↦ rw e refl
        | inr e ↦ rw e refl
      ]

-- After a failed switch a starving session is ended or re-LOADed, any other left alone.
abbrev Decided : Bool → StallAction → Type 0
Decided true a = (a ≡ terminal_end) ⊎ (a ≡ reload)
Decided false a = a ≡ no_action

act-Decided :
    (now : ℕ) (device_id : Text) (generation : ℕ) (a : StallAction) (b : Bridge)
    → Decided true a
    → acts (act now device_id generation a b).0 ≡ true
unfolding act handle_stall_reload
act-Decided now device_id generation a b (inl e) = rw e refl
act-Decided now device_id generation a b (inr e) = rw e (acts-struck now device_id generation _)

stall_action-Decided :
    (paused stale : Bool) (frames : ℕ) (egress : EgressKind) (early repeat : Bool)
    → ((not (paused || not stale || frames == 0) ≡ false)
        × (stall_action paused stale frames egress early repeat ≡ no_action))
      ⊎ ((not (paused || not stale || frames == 0) ≡ true)
          × ((stall_action paused stale frames egress early repeat ≡ early_flac_fallback)
              ⊎ Decided true (stall_action paused stale frames egress early repeat))
          × Decided true (stall_action paused stale frames egress false repeat))
unfolding stall_action
stall_action-Decided paused stale frames egress early repeat =
    elim (Bool-cases (paused || not stale || frames == 0)) [
      | inl e ↦ rw e (inl (refl, refl))
      | inr e ↦
          rw e (inr (refl, first (is_flac egress) early repeat, again (is_flac egress) repeat))
    ]
  where
    first :
        (flac early repeat : Bool)
        → let a =
            (if flac && early
              then early_flac_fallback
              else (if repeat then terminal_end else reload)) in
          (a ≡ early_flac_fallback) ⊎ Decided true a
    first true true repeat = inl refl
    first true false true = inr (inl refl)
    first true false false = inr (inr refl)
    first false early true = inr (inl refl)
    first false early false = inr (inr refl)

    again :
        (flac repeat : Bool)
        → Decided true (
            if flac && false
            then early_flac_fallback
            else (if repeat then terminal_end else reload))
    again true true = inl refl
    again true false = inr refl
    again false true = inl refl
    again false false = inr refl

first_action-acts :
    (now : ℕ) (device_id : Text) (generation : ℕ) (s : StallSnapshot) (b : Bridge)
    → acts (first_action now device_id generation s (action_for now true s) b).0 ≡ starves now s
unfolding first_action action_for switched_or
first_action-acts now device_id generation s b =
    elim (stall_action-Decided s.paused
      (body_is_stale (age_of now s.last_write) (now - s.started_at)) s.ring_frames s.egress
      (ltb (now - s.started_at) flac_fallback_window) (is_repeat now s.last_stall)) [
        | inl (e, a) ↦ rw (e, a) refl
        | inr (e, inl a, d) ↦
            rw (e, a)
              (switched
                (switch_playing_to_wav now device_id generation
                  (remember_flac_fallback device_id b))
                d)
        | inr (e, inr (inl a), d) ↦ rw (e, a) refl
        | inr (e, inr (inr a), d) ↦
            rw (e, a) (act-Decided now device_id generation reload b (inr refl))
      ]
  where
    switched :
        (o : Bool × Bridge)
        → Decided true (action_for now false s)
        → acts (switched_or now device_id generation s o).0 ≡ true
    switched (true, c) d = refl
    switched (false, c) d = act-Decided now device_id generation (action_for now false s) c d

-- A tick for the generation that plays acts exactly on a stall: audio is queued, the body is stale,
-- nothing is paused and no re-LOAD is under way; a stall is never passed over.
pub tick-is_stall :
    {A : Type 0} (rings : ℕ → PcmRing A) (now : ℕ) (device_id : Text) (generation : ℕ)
    (session : PlayingSession) (b : Bridge)
    → state_at device_id b ≡ playing generation session
    → acts (stall_watchdog_tick rings now device_id generation b).0
      ≡ is_stall now (snapshot_of rings session)
unfolding stall_watchdog_tick stall_snapshot snapshot_state with_snapshot
tick-is_stall rings now device_id generation session b e =
    rw (e, (==_iff generation generation).1 refl) (ticked (snapshot_of rings session))
  where
    guarded :
        (r : Bool) (x : Next × Bridge) → acts (if r then (rests, b) else x).0 ≡ (not r && acts x.0)
    guarded true x = refl
    guarded false x = refl

    ticked :
        (s : StallSnapshot)
        → acts (with_snapshot now device_id generation (some s) b).0 ≡ is_stall now s
    ticked s =
        guarded s.reloading (first_action now device_id generation s (action_for now true s) b)
        ∙ ap (λ z. not s.reloading && z) (first_action-acts now device_id generation s b)
