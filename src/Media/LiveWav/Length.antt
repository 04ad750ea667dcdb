-- ===== src/Media/LiveWav/Length.antt =====
-- The length of a live WAV body (media/http.rs) against its Content-Length, and the rollover signal.
use play_on_air.Prelude.{
  ℕ, ◌+◌, ◌≤◌, ◌<◌, ◌≡◌, refl, sym, ap, ◌∙◌, ◌⊎◌, inl, inr, true, List, [], ◌∷◌, length, ltb,
  if◌then◌else◌, Option, none, some, arith, length-append,
}
use play_on_air.Prelude.Words.{u64_max, saturating_add, wrapping_add64}
use play_on_air.Audio.PcmRing.{PcmRing}
use play_on_air.Audio.PcmRing.Order.{IsValid}
use play_on_air.Audio.PcmRing.Bounds.{push_f32-IsValid, push_f32-fields}
use play_on_air.Media.State.{AppState}
use play_on_air.Media.Server.{WavBody}
use play_on_air.Media.LiveWav.{is_superseded, Turn, ends, emits, paces, underruns, emit_chunk}
use play_on_air.Media.LiveWav.Ready.{IsReady, Follows, Fits, HeaderFits}
use play_on_air.Media.LiveWav.Turns.{Outcome, turn-Outcome}
use play_on_air.Media.LiveWav.Runs.{
  Phase, idle, pacing, done, System, Event, pushes, interferes, turns, wakes, send, settle, wake,
  AllFitting, Fitting, take_turn, step, run,
}

abbrev pub body : Phase → WavBody
body (idle b) = b
body (pacing chunk n b) = b
body (done b app) = b

-- What a sleeping body is about to hand over fits; an ended one was superseded or is complete.
abbrev pub Pending : Phase → Type 0
Pending (idle b) = Unit {0}
Pending (pacing chunk n b) = Fits b chunk × (b.header ≡ none)
Pending (done b app) = (is_superseded b app ≡ true) ⊎ (b.bytes_sent ≡ b.threshold)

-- The rollover count once `sent` bytes went out: one signal, at the cap.
abbrev pub signalled : ℕ → ℕ → ℕ → ℕ
signalled before cap sent = if ltb sent cap then before else wrapping_add64 before 1

pub record InvOf {A : Type 0} (before cap : ℕ) (app : AppState) (ring : PcmRing A) (sent : List ℕ)
    (p : Phase) : Type 0 where
  pub ready : IsReady (body p)
  pub channels : ring.channels ≡ (body p).channels
  pub ring_valid : IsValid ring
  pub capped : (body p).threshold ≡ cap
  pub counted : length sent ≡ (body p).bytes_sent
  pub pending : Pending p
  pub rollovers : app.rollover ≡ signalled before cap (length sent)

abbrev pub Inv : {A : Type 0} → ℕ → ℕ → System A → Type 0
Inv before cap s = InvOf before cap s.app s.ring s.sent s.phase

signal_once :
    (before cap sent n r : ℕ)
    → sent < cap
    → r ≡ signalled before cap sent
    → (if ltb (sent + n) cap then r else wrapping_add64 r 1) ≡ signalled before cap (sent + n)
signal_once before cap sent n r below e = ground arith

headerless : (o : Option (List ℕ)) (n : ℕ) → o ≡ none → HeaderFits o n
headerless none n e = tt
headerless (some header) n e = cc

emit_chunk_lem :
    (now : ℕ) (chunk : List ℕ) (n : ℕ) (b : WavBody) (app : AppState)
    → IsReady b
    → b.header ≡ none
    → Fits b chunk
    → let (b', app') = emit_chunk now chunk n b app in
      IsReady b'
      × (b'.channels ≡ b.channels)
      × (b'.threshold ≡ b.threshold)
      × (b'.bytes_sent ≡ b.bytes_sent + length chunk)
      × (app'.rollover ≡ (
          if ltb (b.bytes_sent + length chunk) b.threshold
          then app.rollover
          else wrapping_add64 app.rollover 1))
unfolding emit_chunk
emit_chunk_lem now chunk n b app ready gone fits =
    let e : saturating_add u64_max b.bytes_sent (length chunk) ≡ b.bytes_sent + length chunk =
      omega (arith, ready.cap_word, ready.within, fits.1) in
    rw e (
      record {
        has_channel = ready.has_channel;
        channels_word = ready.channels_word;
        cap = ready.cap;
        cap_word = ready.cap_word;
        within = omega (arith, ready.within, fits.1);
        header_first = headerless b.header _ gone;
      },
      refl,
      refl,
      refl,
      ground (arith, fits.0),
    )

Follows-IsReady : (b b' : WavBody) → IsReady b → Follows b b' → IsReady b'
Follows-IsReady b b' r f = record {
  has_channel = omega (arith, r.has_channel, f.same_channels);
  channels_word = omega (arith, r.channels_word, f.same_channels);
  cap = omega (arith, r.cap, f.same_threshold);
  cap_word = omega (arith, r.cap_word, f.same_threshold);
  within = omega (arith, r.within, f.same_threshold, f.same_sent);
  header_first = headerless b'.header _ f.header_gone;
}

Follows-Fits : (b b' : WavBody) (chunk : List ℕ) → Follows b b' → Fits b chunk → Fits b' chunk
Follows-Fits b b' chunk f h = omega (arith, f.same_sent, f.same_threshold, h.0, h.1)

module _ {A : Type 0} (before cap : ℕ) where
  -- Handing a chunk over keeps the count of bytes, and signals exactly when the cap is reached.
  send-Inv :
      (now : ℕ) (chunk : List ℕ) (n : ℕ) (b : WavBody) (s : System A)
      → IsReady b
      → b.header ≡ none
      → Fits b chunk
      → s.ring.channels ≡ b.channels
      → IsValid s.ring
      → b.threshold ≡ cap
      → length s.sent ≡ b.bytes_sent
      → s.app.rollover ≡ signalled before cap (length s.sent)
      → Inv before cap (send now chunk n b s)
  unfolding send
  send-Inv now chunk n b s ready gone fits same valid capped counted rolled =
      let (ready', ch, th, sent, roll) = emit_chunk_lem now chunk n b s.app ready gone fits in
      record {
        ready = ready';
        channels = same ∙ sym ch;
        ring_valid = valid;
        capped = th ∙ capped;
        counted = length-append s.sent chunk ∙ omega (arith, sent, counted);
        pending = tt;
        rollovers = rw (length-append s.sent chunk) (roll ∙ once);
      }
    where
      once :
          (if ltb (b.bytes_sent + length chunk) b.threshold
            then s.app.rollover
            else wrapping_add64 s.app.rollover 1)
          ≡ signalled before cap (length s.sent + length chunk)
      once =
          rw (← counted, capped)
            (signal_once before cap (length s.sent) (length chunk) s.app.rollover
              (omega (arith, fits.0, fits.1)) rolled)

module _ {A : Type 0} (f32_to_i16 : A → ℕ) (before cap : ℕ) where
  settle-Inv :
      (now : ℕ) (b : WavBody) (s : System A) (o : Turn × PcmRing A)
      → InvOf before cap s.app s.ring s.sent (idle b)
      → Outcome f32_to_i16 s.app s.ring b o
      → Inv before cap (settle now b s o)
  unfolding settle
  settle-Inv now b s (ends, ring) v (e, h) = record {
    ready = v.ready;
    channels = ap (λ r. r.channels) e ∙ v.channels;
    ring_valid = rw e v.ring_valid;
    capped = v.capped;
    counted = v.counted;
    pending = h;
    rollovers = v.rollovers;
  }
  settle-Inv now b s (emits chunk n b', ring) v (e, f, h, _) =
      send-Inv before cap now chunk n b' (record s { ring = ring }) (Follows-IsReady b b' v.ready f)
        f.header_gone (Follows-Fits b b' chunk f h)
        (ap (λ r. r.channels) e ∙ v.channels ∙ sym f.same_channels) (rw e v.ring_valid)
        (f.same_threshold ∙ v.capped) (v.counted ∙ sym f.same_sent) v.rollovers
  settle-Inv now b s (paces sleep chunk n b', ring) v (f, h, t) = record {
    ready = Follows-IsReady b b' v.ready f;
    channels = t.4 ∙ v.channels ∙ sym f.same_channels;
    ring_valid = t.3;
    capped = f.same_threshold ∙ v.capped;
    counted = v.counted ∙ sym f.same_sent;
    pending = (Follows-Fits b b' chunk f h, f.header_gone);
    rollovers = v.rollovers;
  }
  settle-Inv now b s (underruns b', ring) v (f, _, _, _, _, valid, same) = record {
    ready = Follows-IsReady b b' v.ready f;
    channels = same ∙ v.channels ∙ sym f.same_channels;
    ring_valid = valid;
    capped = f.same_threshold ∙ v.capped;
    counted = v.counted ∙ sym f.same_sent;
    pending = tt;
    rollovers = v.rollovers;
  }

  take_turn-Inv :
      (split first_now now : ℕ) (p : Phase) (s : System A)
      → s.phase ≡ p
      → InvOf before cap s.app s.ring s.sent p
      → Inv before cap (take_turn f32_to_i16 split first_now now p s)
  unfolding take_turn
  take_turn-Inv split first_now now (idle b) s e v =
      settle-Inv now b s _ v
        (turn-Outcome f32_to_i16 s.app s.ring b v.ready split first_now now v.ring_valid v.channels)
  take_turn-Inv split first_now now (pacing chunk n b) s e v = rw e v
  take_turn-Inv split first_now now (done b app) s e v = rw e v

  wake-Inv :
      (now : ℕ) (p : Phase) (s : System A)
      → s.phase ≡ p
      → InvOf before cap s.app s.ring s.sent p
      → Inv before cap (wake now p s)
  unfolding wake
  wake-Inv now (idle b) s e v = rw e v
  wake-Inv now (pacing chunk n b) s e v =
      send-Inv before cap now chunk n b s v.ready v.pending.1 v.pending.0 v.channels v.ring_valid
        v.capped v.counted v.rollovers
  wake-Inv now (done b app) s e v = rw e v

  pub step-Inv :
      (e : Event A) (s : System A)
      → Fitting e
      → Inv before cap s
      → Inv before cap (step f32_to_i16 e s)
  unfolding step
  step-Inv (pushes samples) s fit v = record {
    ready = v.ready;
    channels = (push_f32-fields s.ring samples).0 ∙ v.channels;
    ring_valid = push_f32-IsValid s.ring samples v.ring_valid fit;
    capped = v.capped;
    counted = v.counted;
    pending = v.pending;
    rollovers = v.rollovers;
  }
  step-Inv (interferes app) s fit v = record {
    ready = v.ready;
    channels = v.channels;
    ring_valid = v.ring_valid;
    capped = v.capped;
    counted = v.counted;
    pending = v.pending;
    rollovers = v.rollovers;
  }
  step-Inv (turns split first_now now) s fit v = take_turn-Inv split first_now now s.phase s refl v
  step-Inv (wakes now) s fit v = wake-Inv now s.phase s refl v

  pub run-Inv :
      (es : List (Event A)) (s : System A)
      → AllFitting es
      → Inv before cap s
      → Inv before cap (run f32_to_i16 es s)
  unfolding run
  run-Inv [] s fit v = v
  run-Inv (e ∷ es) s fit v = run-Inv es (step f32_to_i16 e s) fit.1 (step-Inv e s fit.0 v)

-- A body as a GET starts it.
pub record IsFresh {A : Type 0} (s : System A) (b : WavBody) : Type 0 where
  pub starts : s.phase ≡ idle b
  pub nothing_sent : s.sent ≡ []
  pub ready : IsReady b
  pub at_zero : b.bytes_sent ≡ 0
  pub channels : s.ring.channels ≡ b.channels
  pub ring_valid : IsValid s.ring

pub fresh-Inv :
    {A : Type 0} (s : System A) (b : WavBody) → IsFresh s b → Inv s.app.rollover b.threshold s
fresh-Inv s b f =
    rw (f.starts, f.nothing_sent)
      (record {
        ready = f.ready;
        channels = f.channels;
        ring_valid = f.ring_valid;
        capped = refl;
        counted = sym f.at_zero;
        pending = tt;
        rollovers = ground (arith, f.ready.cap);
      })

-- An ended body was superseded by then, or has sent all of `cap`.
abbrev pub EndsWell : ℕ → ℕ → Phase → Type 0
EndsWell cap sent (done b app) = (is_superseded b app ≡ true) ⊎ (sent ≡ cap)
EndsWell cap sent _ = Unit {0}

InvOf-EndsWell :
    {A : Type 0} (before cap : ℕ) (app : AppState) (ring : PcmRing A) (sent : List ℕ) (p : Phase)
    → InvOf before cap app ring sent p
    → EndsWell cap (length sent) p
InvOf-EndsWell before cap app ring sent (idle b) v = tt
InvOf-EndsWell before cap app ring sent (pacing chunk n b) v = tt
InvOf-EndsWell before cap app ring sent (done b last) v = ended v.pending
  where
    ended :
        (is_superseded b last ≡ true) ⊎ (b.bytes_sent ≡ b.threshold)
        → (is_superseded b last ≡ true) ⊎ (length sent ≡ cap)
    ended (inl h) = inl h
    ended (inr h) = inr (v.counted ∙ h ∙ v.capped)

-- From a fresh body, however turns, sleeps, other requests and pushes (of at most `max_samples`
-- each) interleave: a body never sends more bytes than its Content-Length; it signals one rollover, when it has sent exactly that many, and none before;
-- and it ends only when it was superseded or has sent exactly that many.
pub run-length :
    {A : Type 0} (f32_to_i16 : A → ℕ) (s : System A) (b : WavBody) (es : List (Event A))
    → IsFresh s b
    → AllFitting es
    → let t = run f32_to_i16 es s in
      (length t.sent ≤ b.threshold)
      × (t.app.rollover ≡ signalled s.app.rollover b.threshold (length t.sent))
      × EndsWell b.threshold (length t.sent) t.phase
run-length f32_to_i16 s b es fresh fit =
    let v = run-Inv f32_to_i16 s.app.rollover b.threshold es s fit (fresh-Inv s b fresh) in
    (omega (arith, v.counted, v.capped, v.ready.within), v.rollovers, InvOf-EndsWell _ _ _ _ _ _ v)
