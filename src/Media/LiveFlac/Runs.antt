-- ===== src/Media/LiveFlac/Runs.antt =====
-- A live FLAC body (media/http.rs) among the other tasks: its turns and its sleeps, with audio
-- pushed to the ring and the server's state changed in between, in any order.
use play_on_air.Prelude.{ℕ, List, [], ◌∷◌, ◌++◌, Option}
use play_on_air.Audio.PcmRing.{PcmRing, push_f32}
use play_on_air.Audio.Flac.{LiveFlacEncoder}
use play_on_air.Media.State.{AppState}
use play_on_air.Media.Server.{FlacBody}
use play_on_air.Media.LiveFlac.{Turn, ends, emits, paces, waits, turn, emit_chunk, encode_current}

-- Between two turns, asleep with a popped block, or ended, with the state it ended in.
pub data Phase : Type 0 where
  idle : FlacBody → Phase
  pacing : List ℕ → ℕ → FlacBody → Phase
  done : FlacBody → AppState → Phase

-- `written` is the chunks that were handed over.
pub record System (A : Type 0) : Type 0 where
  pub app : AppState
  pub ring : PcmRing A
  pub phase : Phase
  pub written : List (List ℕ)

pub data Event (A : Type 0) : Type 0 where
  pushes : List A → Event A
  interferes : AppState → Event A
  turns : ℕ → ℕ → ℕ → Event A
  wakes : ℕ → Event A

module _ {A : Type 0} (encode_frame : LiveFlacEncoder → List ℕ → Option (List ℕ))
    (f32_to_i16 : A → ℕ) where
  -- What a turn decides.
  unfoldable pub settle : ℕ → FlacBody → System A → Turn → System A
  settle now b s ends = record s { phase = done b s.app }
  settle now b s (emits chunk n b') =
      let (sent, app) = emit_chunk now chunk n b' s.app in
      record s { app = app; phase = idle sent; written = s.written ++ chunk ∷ [] }
  settle now b s (paces sleep popped n b') = record s { phase = pacing popped n b' }
  settle now b s (waits b') = record s { phase = idle b' }

  -- After the sleep the block is encoded and handed over.
  unfoldable pub wake : ℕ → Phase → System A → System A
  unfolding settle
  wake now (idle b) s = s
  wake now (pacing samples n b) s = settle now b s (encode_current encode_frame samples n b)
  wake now (done b app) s = s

  unfoldable pub take_turn : ℕ → ℕ → ℕ → Phase → System A → System A
  unfolding settle
  take_turn split first_now now (idle b) s =
      let (decided, ring) = turn encode_frame f32_to_i16 split first_now now s.app s.ring b in
      settle now b (record s { ring = ring }) decided
  take_turn split first_now now (pacing samples n b) s = s
  take_turn split first_now now (done b app) s = s

  unfoldable pub step : Event A → System A → System A
  unfolding take_turn wake
  step (pushes samples) s = record s { ring = push_f32 samples s.ring }
  step (interferes app) s = record s { app = app }
  step (turns split first_now now) s = take_turn split first_now now s.phase s
  step (wakes now) s = wake now s.phase s

  unfoldable pub run : List (Event A) → System A → System A
  run [] s = s
  run (e ∷ es) s = run es (step e s)
