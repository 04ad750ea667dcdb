-- ===== src/Media/LiveWav/Runs.antt =====
-- A live WAV body (media/http.rs) among the other tasks: its turns and its sleeps, with audio pushed
-- to the ring and the server's state changed in between, in any order.
use play_on_air.Prelude.{ℕ, List, [], ◌∷◌, ◌++◌, length, ◌≤◌}
use play_on_air.Audio.PcmRing.{PcmRing, push_f32}
use play_on_air.Audio.PcmRing.Order.{max_samples}
use play_on_air.Media.State.{AppState}
use play_on_air.Media.Server.{WavBody}
use play_on_air.Media.LiveWav.{Turn, ends, emits, paces, underruns, turn, emit_chunk}

-- Between two turns, asleep before a chunk is handed over, or ended, with the state it ended in.
pub data Phase : Type 0 where
  idle : WavBody → Phase
  pacing : List ℕ → ℕ → WavBody → Phase
  done : WavBody → AppState → Phase

-- `sent` is every byte that the body has handed over.
pub record System (A : Type 0) : Type 0 where
  pub app : AppState
  pub ring : PcmRing A
  pub phase : Phase
  pub sent : List ℕ

-- Other tasks may change all of the server's state but the rollover count, which live bodies alone
-- raise.
pub data Event (A : Type 0) : Type 0 where
  pushes : List A → Event A
  interferes : AppState → Event A
  turns : ℕ → ℕ → ℕ → Event A
  wakes : ℕ → Event A

module _ {A : Type 0} where
  -- Hand a chunk over.
  unfoldable pub send : ℕ → List ℕ → ℕ → WavBody → System A → System A
  send now chunk n b s =
      let (b', app) = emit_chunk now chunk n b s.app in
      record s { app = app; phase = idle b'; sent = s.sent ++ chunk }

  unfoldable pub settle : ℕ → WavBody → System A → Turn × PcmRing A → System A
  unfolding send
  settle now b s (ends, ring) = record s { ring = ring; phase = done b s.app }
  settle now b s (emits chunk n b', ring) = send now chunk n b' (record s { ring = ring })
  settle now b s (paces sleep chunk n b', ring) = record s {
    ring = ring;
    phase = pacing chunk n b';
  }
  settle now b s (underruns b', ring) = record s { ring = ring; phase = idle b' }

  unfoldable pub wake : ℕ → Phase → System A → System A
  unfolding send
  wake now (idle b) s = s
  wake now (pacing chunk n b) s = send now chunk n b s
  wake now (done b app) s = s

  abbrev pub Fitting : Event A → Type 0
  Fitting (pushes samples) = length samples ≤ max_samples
  Fitting _ = Unit {0}

  abbrev pub AllFitting : List (Event A) → Type 0
  AllFitting [] = Unit {0}
  AllFitting (e ∷ es) = Fitting e × AllFitting es

module _ {A : Type 0} (f32_to_i16 : A → ℕ) where
  unfoldable pub take_turn : ℕ → ℕ → ℕ → Phase → System A → System A
  unfolding settle
  take_turn split first_now now (idle b) s =
      settle now b s (turn f32_to_i16 split first_now now s.app s.ring b)
  take_turn split first_now now (pacing chunk n b) s = s
  take_turn split first_now now (done b app) s = s

  unfoldable pub step : Event A → System A → System A
  unfolding take_turn wake
  step (pushes samples) s = record s { ring = push_f32 samples s.ring }
  step (interferes app) s = record s { app = record app { rollover = s.app.rollover } }
  step (turns split first_now now) s = take_turn split first_now now s.phase s
  step (wakes now) s = wake now s.phase s

  unfoldable pub run : List (Event A) → System A → System A
  run [] s = s
  run (e ∷ es) s = run es (step e s)
