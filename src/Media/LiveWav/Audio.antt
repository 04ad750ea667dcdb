-- ===== src/Media/LiveWav/Audio.antt =====
-- What a live WAV body (media/http.rs) plays: the header, silence in front, then the ring's audio.
use play_on_air.Prelude.{
  ℕ, ◌+◌, ◌≤◌, ◌≡◌, refl, sym, ap, ◌∙◌, inl, inr, List, [], ◌∷◌, ◌++◌, drop, length, none, some,
  arith, length-append, append-nil, append_assoc,
}
use play_on_air.Audio.PcmRing.{PcmRing, push_f32}
use play_on_air.Audio.PcmRing.Order.{IsValid, max_samples, buf-push_f32}
use play_on_air.Media.Server.{WavBody}
use play_on_air.Media.LiveWav.{Turn, ends, emits, paces, underruns, emit_chunk}
use play_on_air.Media.LiveWav.Ready.{Follows, Fits, Silent}
use play_on_air.Media.LiveWav.Turns.{Outcome, turn-Outcome}
use play_on_air.Media.LiveWav.Runs.{
  Phase, idle, pacing, done, System, Event, pushes, interferes, turns, wakes, send, settle, wake,
  Fitting, AllFitting, take_turn, step, run,
}
use play_on_air.Media.LiveWav.Length.{body, InvOf, Inv, IsFresh, step-Inv, fresh-Inv}
use play_on_air.Media.LiveWav.Layout.{
  or_nil, bytes_of, Plays, Plays-audio, Plays-silence, Plays-pad, Plays-falls,
}

module _ {A : Type 0} (f32_to_i16 : A → ℕ) where
  module _ (header : List ℕ) (received : List A) (cap : ℕ) where
    abbrev pub HeardOf : PcmRing A → List ℕ → Phase → Type 0
    HeardOf ring sent p =
        Plays f32_to_i16 header received ring.buf (body p).preroll_frames_left cap (bytes_of sent p)

    send-Heard :
        (now : ℕ) (chunk : List ℕ) (n : ℕ) (b : WavBody) (s : System A)
        → b.header ≡ none
        → Plays f32_to_i16 header received s.ring.buf b.preroll_frames_left cap (s.sent ++ chunk)
        → HeardOf
            (send now chunk n b s).ring
            (send now chunk n b s).sent
            (send now chunk n b s).phase
    unfolding send emit_chunk
    send-Heard now chunk n b s gone p = rw (gone, append-nil) p

    unsent : (sent : List ℕ) (b : WavBody) → b.header ≡ none → sent ++ or_nil b.header ≡ sent
    unsent sent b gone = rw (gone, append-nil)

    Silent-Heard :
        (ring : PcmRing A) (sent chunk : List ℕ) (b b' : WavBody)
        → Follows b b'
        → Fits b chunk
        → Silent b chunk
        → b.threshold ≡ cap
        → length sent ≡ b.bytes_sent
        → HeardOf ring sent (idle b)
        → Plays f32_to_i16 header received ring.buf b'.preroll_frames_left cap (sent ++ chunk)
    Silent-Heard ring sent chunk b b' f fits (inl e) capped counted p =
        Plays-falls f32_to_i16 header received cap _ _ _ _ (rw (ap or_nil e) at p) f.preroll_falls
    Silent-Heard ring sent chunk b b' f fits (inr (gone, blank, inl more)) capped counted p =
        rw blank (
          Plays-silence f32_to_i16 header received cap _ _ sent (length chunk) _
            (rw (unsent sent b gone) at p) (omega arith) more)
    Silent-Heard ring sent chunk b b' f fits (inr (gone, blank, inr full)) capped counted p =
        rw blank (
          Plays-pad f32_to_i16 header received cap _ _ sent (length chunk) _
            (rw (unsent sent b gone) at p) (omega arith) f.preroll_falls
            (rw (← blank) (omega (arith, length-append sent chunk))))

    settle-Heard :
        (before now : ℕ) (b : WavBody) (s : System A) (o : Turn × PcmRing A)
        → InvOf before cap s.app s.ring s.sent (idle b)
        → Outcome f32_to_i16 s.app s.ring b o
        → HeardOf s.ring s.sent (idle b)
        → HeardOf (settle now b s o).ring (settle now b s o).sent (settle now b s o).phase
    unfolding settle
    settle-Heard before now b s (ends, ring) v (e, _) p = rw e p
    settle-Heard before now b s (emits chunk n b', ring) v (e, f, fits, silent) p =
        send-Heard now chunk n b' (record s { ring = ring }) f.header_gone
          (rw e (Silent-Heard s.ring s.sent chunk b b' f fits silent v.capped v.counted p))
    settle-Heard before now b s (paces sleep chunk n b', ring) v (f, fits, t) p =
        rw (t.2.1, t.2.2)
          (Plays-audio f32_to_i16 header received cap _ _ s.sent t.2.0 _
            (rw (unsent s.sent b t.0) at p) (omega (arith, v.counted, v.capped, fits.0, fits.1))
            (omega (arith, t.1, f.preroll_falls)))
    settle-Heard before now b s (underruns b', ring) v (f, gone, _, _, same, _, _) p =
        rw (same, f.header_gone, append-nil)
          (Plays-falls f32_to_i16 header received cap _ _ _ _ (rw (unsent s.sent b gone) at p)
            f.preroll_falls)

    take_turn-Heard :
        (before split first_now now : ℕ) (p : Phase) (s : System A)
        → s.phase ≡ p
        → InvOf before cap s.app s.ring s.sent p
        → HeardOf s.ring s.sent p
        → let t = take_turn f32_to_i16 split first_now now p s in HeardOf t.ring t.sent t.phase
    unfolding take_turn
    take_turn-Heard before split first_now now (idle b) s e v h =
        settle-Heard before now b s _ v
          (turn-Outcome f32_to_i16 s.app s.ring b v.ready split first_now now v.ring_valid
            v.channels)
          h
    take_turn-Heard before split first_now now (pacing chunk n b) s e v h = rw e h
    take_turn-Heard before split first_now now (done b app) s e v h = rw e h

    wake-Heard :
        (before now : ℕ) (p : Phase) (s : System A)
        → s.phase ≡ p
        → InvOf before cap s.app s.ring s.sent p
        → HeardOf s.ring s.sent p
        → HeardOf (wake now p s).ring (wake now p s).sent (wake now p s).phase
    unfolding wake
    wake-Heard before now (idle b) s e v h = rw e h
    wake-Heard before now (pacing chunk n b) s e v h = send-Heard now chunk n b s v.pending.1 h
    wake-Heard before now (done b app) s e v h = rw e h

  -- The audio that an event brings, and that it finds room in the ring.
  abbrev pub arriving : Event A → List A
  arriving (pushes samples) = samples
  arriving _ = []

  abbrev pub HasRoom : Event A → PcmRing A → Type 0
  HasRoom (pushes samples) ring = length ring.buf + length samples ≤ ring.capacity_samples
  HasRoom _ ring = Unit {0}

  abbrev pub all_arriving : List (Event A) → List A
  all_arriving [] = []
  all_arriving (e ∷ es) = arriving e ++ all_arriving es

  abbrev pub NothingLost : List (Event A) → System A → Type 0
  NothingLost [] s = Unit {0}
  NothingLost (e ∷ es) s = HasRoom e s.ring × NothingLost es (step f32_to_i16 e s)

  push-Heard :
      (header : List ℕ) (received : List A) (cap : ℕ) (samples : List A) (s : System A)
      → IsValid s.ring
      → length samples ≤ max_samples
      → length s.ring.buf + length samples ≤ s.ring.capacity_samples
      → HeardOf header received cap s.ring s.sent s.phase
      → HeardOf header (received ++ samples) cap (push_f32 samples s.ring) s.sent s.phase
  push-Heard header received cap samples s valid fit room p = record {
    silence = p.silence;
    heard = p.heard;
    pad = p.pad;
    layout = p.layout;
    in_order =
        ap (◌++◌ p.heard) kept
        ∙ sym (append_assoc p.heard s.ring.buf samples)
        ∙ ap (λ xs. xs ++ samples) p.in_order;
    silence_first = p.silence_first;
    pad_last = p.pad_last;
  }
    where
      kept : (push_f32 samples s.ring).buf ≡ s.ring.buf ++ samples
      kept =
          buf-push_f32 s.ring samples valid fit
          ∙ ap (λ k. drop k (s.ring.buf ++ samples)) {y = 0}
              (omega (arith, length-append s.ring.buf samples))

  step-Heard :
      (header : List ℕ) (received : List A) (before cap : ℕ) (e : Event A) (s : System A)
      → Fitting e
      → HasRoom e s.ring
      → Inv before cap s
      → HeardOf header received cap s.ring s.sent s.phase
      → let t = step f32_to_i16 e s in
        HeardOf header (received ++ arriving e) cap t.ring t.sent t.phase
  unfolding step
  step-Heard header received before cap (pushes samples) s fit room v h =
      push-Heard header received cap samples s v.ring_valid fit room h
  step-Heard header received before cap (interferes app) s fit room v h = rw append-nil h
  step-Heard header received before cap (turns split first_now now) s fit room v h =
      rw append-nil
        (take_turn-Heard header received cap before split first_now now s.phase s refl v h)
  step-Heard header received before cap (wakes now) s fit room v h =
      rw append-nil (wake-Heard header received cap before now s.phase s refl v h)

  run-Heard :
      (header : List ℕ) (received : List A) (before cap : ℕ) (es : List (Event A)) (s : System A)
      → AllFitting es
      → NothingLost es s
      → Inv before cap s
      → HeardOf header received cap s.ring s.sent s.phase
      → let t = run f32_to_i16 es s in
        HeardOf header (received ++ all_arriving es) cap t.ring t.sent t.phase
  unfolding run
  run-Heard header received before cap [] s fit room v h = rw append-nil h
  run-Heard header received before cap (e ∷ es) s fit room v h =
      rw (← append_assoc received (arriving e) (all_arriving es)) (
        run-Heard header (received ++ arriving e) before cap es (step f32_to_i16 e s) fit.1 room.1
          (step-Inv f32_to_i16 before cap e s fit.0 v)
          (step-Heard header received before cap e s fit.0 room.0 v h))

  -- From a fresh body with its header to come, while no push (of at most `max_samples`) overflows
  -- the ring: what the body has handed over and is about to is, in this order:
  -- its header, silence, the audio of the ring from where it began, whole and in order, and, once it
  -- is complete, a pad. So no audio is lost, repeated or reordered, and no silence comes into it.
  pub run_audio :
      (s : System A) (b : WavBody) (header : List ℕ) (es : List (Event A))
      → IsFresh s b
      → b.header ≡ some header
      → AllFitting es
      → NothingLost es s
      → let t = run f32_to_i16 es s in
        HeardOf header (s.ring.buf ++ all_arriving es) b.threshold t.ring t.sent t.phase
  run_audio s b header es fresh e fit room =
      run-Heard header s.ring.buf s.app.rollover b.threshold es s fit room (fresh-Inv s b fresh) (
        rw (fresh.starts, fresh.nothing_sent, e)
          (record {
            silence = 0;
            heard = [];
            pad = 0;
            layout = sym (append-nil header);
            in_order = refl;
            silence_first = inl refl;
            pad_last = inl refl;
          }))
