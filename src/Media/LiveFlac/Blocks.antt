-- ===== src/Media/LiveFlac/Blocks.antt =====
-- What a live FLAC body (media/http.rs) plays: whole blocks of the ring's audio, in order.
use play_on_air.Prelude.{
  ℕ, suc, ◌+◌, ◌*◌, ◌≤◌, ◌≡◌, refl, sym, ap, ◌∙◌, inl, inr, List, [], ◌∷◌, ◌++◌, map, drop, length,
  replicate, Option, some, arith, length-append, append-nil, append_assoc, map-append,
  take-append-drop,
}
use play_on_air.Audio.PcmRing.{PcmRing, push_f32}
use play_on_air.Audio.PcmRing.Order.{IsValid, max_samples, buf-push_f32}
use play_on_air.Audio.PcmRing.Bounds.{push_f32-IsValid, push_f32-fields}
use play_on_air.Audio.Flac.{LiveFlacEncoder}
use play_on_air.Media.State.{AppState}
use play_on_air.Media.Server.{FlacBody}
use play_on_air.Media.LiveFlac.{Turn, ends, emits, paces, waits, emit_chunk}
use play_on_air.Media.LiveFlac.Turns.{
  IsReady, Encodes, StillHeaded, Outcome, encode_current_lem, turn-Outcome,
}
use play_on_air.Media.LiveFlac.Runs.{
  Phase, idle, pacing, done, System, Event, pushes, interferes, turns, wakes, settle, wake,
  take_turn, step, run,
}
use play_on_air.Media.LiveFlac.Chunks.{
  pending, IsLive, Headed, Chunk, header_chunk, silence_chunk, audio_chunk, audio_of,
  audio_of-append, headed_on, header_is,
}

module _ {A : Type 0} (encode_frame : LiveFlacEncoder → List ℕ → Option (List ℕ))
    (f32_to_i16 : A → ℕ) where
  -- The bytes of a chunk.
  abbrev pub made : List ℕ → ℕ → Chunk → Option (List ℕ)
  made header channels header_chunk = some header
  made header channels (silence_chunk e) = encode_frame e (replicate (2048 * channels) 0)
  made header channels (audio_chunk e samples) = encode_frame e samples

  -- The events bring audio that fits the ring, in slices that can be allocated.
  abbrev pub arriving : Event A → List A
  arriving (pushes samples) = samples
  arriving _ = []

  abbrev pub all_arriving : List (Event A) → List A
  all_arriving [] = []
  all_arriving (e ∷ es) = arriving e ++ all_arriving es

  abbrev pub HasRoom : Event A → PcmRing A → Type 0
  HasRoom (pushes samples) ring =
      (length samples ≤ max_samples) × (length ring.buf + length samples ≤ ring.capacity_samples)
  HasRoom _ ring = Unit {0}

  abbrev pub NothingLost : List (Event A) → System A → Type 0
  NothingLost [] s = Unit {0}
  NothingLost (e ∷ es) s = HasRoom e s.ring × NothingLost es (step encode_frame f32_to_i16 e s)

  -- The chunks that were written are the header, silence and audio, each encoded; the audio of
  -- these, pending and queued audio is what was received; the audio went out in whole blocks.
  pub record SoundOf (header : List ℕ) (channels : ℕ) (received : List A) (ring : PcmRing A)
      (written : List (List ℕ)) (p : Phase) : Type 0 where
    pub live : IsLive channels p
    pub headed : Headed header p
    pub ring_valid : IsValid ring
    pub ring_channels : ring.channels ≡ channels
    pub chunks : List Chunk
    pub all_made : map some written ≡ map (made header channels) chunks
    pub in_order :
        (audio_of chunks ++ pending p) ++ map f32_to_i16 ring.buf ≡ map f32_to_i16 received
    pub blocks : ℕ
    pub whole_blocks : length (audio_of chunks) ≡ blocks * (2048 * channels)

  abbrev pub Sound : List ℕ → ℕ → List A → System A → Type 0
  Sound header channels received s = SoundOf header channels received s.ring s.written s.phase

  one_more :
      (header : List ℕ) (channels : ℕ) (written : List (List ℕ)) (chunks : List Chunk)
      (bytes : List ℕ) (chunk : Chunk)
      → map some written ≡ map (made header channels) chunks
      → made header channels chunk ≡ some bytes
      → map some (written ++ bytes ∷ []) ≡ map (made header channels) (chunks ++ chunk ∷ [])
  one_more header channels written chunks bytes chunk all e =
      map-append some written (bytes ∷ [])
      ∙ ap (λ xs. xs ++ some bytes ∷ []) all
      ∙ ap (λ o. map (made header channels) chunks ++ o ∷ []) (sym e)
      ∙ sym (map-append (made header channels) chunks (chunk ∷ []))

  module _ (encodes : Encodes encode_frame) (header : List ℕ) (channels : ℕ) where
    sent-IsReady :
        (now : ℕ) (chunk : List ℕ) (n : ℕ) (b : FlacBody) (app : AppState)
        → IsReady channels b
        → IsReady channels (emit_chunk now chunk n b app).0
    unfolding emit_chunk
    sent-IsReady now chunk n b app r = record {
      has_channel = r.has_channel;
      channels_word = r.channels_word;
      same_channels = r.same_channels;
      encoder_channels = r.encoder_channels;
      whole = r.whole;
    }

    -- A chunk without audio is handed over.
    silent-Sound :
        (received : List A) (now : ℕ) (bytes : List ℕ) (n : ℕ) (b b' : FlacBody) (app : AppState)
        (ring : PcmRing A) (written : List (List ℕ)) (chunk : Chunk)
        → SoundOf header channels received ring written (idle b)
        → IsReady channels b'
        → StillHeaded b b'
        → made header channels chunk ≡ some bytes
        → audio_of (chunk ∷ []) ≡ []
        → SoundOf header channels received ring
            (written ++ bytes ∷ [])
            (idle (emit_chunk now bytes n b' app).0)
    unfolding emit_chunk
    silent-Sound received now bytes n b b' app ring written chunk v r h e quiet =
        let same : audio_of (v.chunks ++ chunk ∷ []) ≡ audio_of v.chunks =
          audio_of-append v.chunks (chunk ∷ [])
          ∙ ap (λ xs. audio_of v.chunks ++ xs) quiet
          ∙ append-nil (audio_of v.chunks) in
        record {
          live = sent-IsReady now bytes n b' app r;
          headed = headed_on header b b' h v.headed;
          ring_valid = v.ring_valid;
          ring_channels = v.ring_channels;
          chunks = v.chunks ++ chunk ∷ [];
          all_made = one_more header channels written v.chunks bytes chunk v.all_made e;
          in_order = rw same v.in_order;
          blocks = v.blocks;
          whole_blocks = rw same v.whole_blocks;
        }

    settle-Sound :
        (received : List A) (now : ℕ) (b : FlacBody) (s : System A) (o : Turn × PcmRing A)
        → SoundOf header channels received s.ring s.written (idle b)
        → Outcome encode_frame f32_to_i16 channels s.app s.ring b o
        → Sound header channels received
            (settle encode_frame f32_to_i16 now b (record s { ring = o.1 }) o.0)
    unfolding settle
    settle-Sound received now b s (ends, ring) v (same, gone) = record {
      live = gone;
      headed = tt;
      ring_valid = rw same v.ring_valid;
      ring_channels = rw same v.ring_channels;
      chunks = v.chunks;
      all_made = v.all_made;
      in_order = rw same v.in_order;
      blocks = v.blocks;
      whole_blocks = v.whole_blocks;
    }
    settle-Sound received now b s (emits bytes n b', ring) v (same, r, h, inl e) = rw same (
        silent-Sound received now bytes n b b' s.app s.ring s.written header_chunk v r h
          (ap some (sym (header_is header bytes b.header e v.headed))) refl)
    settle-Sound received now b s (emits bytes n b', ring) v (same, r, h, inr (encoder, e)) =
        rw same (
          silent-Sound received now bytes n b b' s.app s.ring s.written (silence_chunk encoder) v r
            h e refl)
    settle-Sound received now b s (paces sleep samples n b', ring) v
          (r, popped, full, rest, valid, ch, h) =
        record {
          live = (r, full);
          headed = headed_on header b b' h v.headed;
          ring_valid = valid;
          ring_channels = ch ∙ v.ring_channels;
          chunks = v.chunks;
          all_made = v.all_made;
          in_order =
              rw
                (
                  popped,
                  rest,
                  append_assoc (audio_of v.chunks),
                  ← map-append f32_to_i16,
                  take-append-drop,
                )
                (rw (append-nil (audio_of v.chunks)) at v.in_order);
          blocks = v.blocks;
          whole_blocks = v.whole_blocks;
        }
    settle-Sound received now b s (waits b', ring) v (same, r, h) = record {
      live = r;
      headed = headed_on header b b' h v.headed;
      ring_valid = rw same v.ring_valid;
      ring_channels = rw same v.ring_channels;
      chunks = v.chunks;
      all_made = v.all_made;
      in_order = rw same v.in_order;
      blocks = v.blocks;
      whole_blocks = v.whole_blocks;
    }

    take_turn-Sound :
        (received : List A) (split first_now now : ℕ) (p : Phase) (s : System A)
        → s.phase ≡ p
        → SoundOf header channels received s.ring s.written p
        → Sound header channels received (take_turn encode_frame f32_to_i16 split first_now now p s)
    unfolding take_turn
    take_turn-Sound received split first_now now (idle b) s e v =
        settle-Sound received now b s _ v (
          turn-Outcome encode_frame encodes channels f32_to_i16 s.app s.ring b v.live split
            first_now now v.ring_valid v.ring_channels)
    take_turn-Sound received split first_now now (pacing samples n b) s e v = rw e v
    take_turn-Sound received split first_now now (done b app) s e v = rw e v

    -- The block that waited is handed over.
    hand_over :
        (received : List A) (now : ℕ) (samples : List ℕ) (n : ℕ) (b : FlacBody) (s : System A)
        (t : Turn)
        → SoundOf header channels received s.ring s.written (pacing samples n b)
        → (bytes : List ℕ) × (b' : FlacBody) × (t ≡ emits bytes n b')
          × IsReady channels b'
          × (encode_frame b.encoder samples ≡ some bytes)
          × (b'.header ≡ b.header)
        → Sound header channels received (settle encode_frame f32_to_i16 now b s t)
    unfolding settle emit_chunk
    hand_over received now samples n b s t v (bytes, b', e, r, coded, h) =
        let chunk = audio_chunk b.encoder samples in
        let more : audio_of (v.chunks ++ chunk ∷ []) ≡ audio_of v.chunks ++ samples =
          audio_of-append v.chunks (chunk ∷ [])
          ∙ ap (λ xs. audio_of v.chunks ++ xs) (append-nil samples) in
        rw e (record {
          live = sent-IsReady now bytes n b' s.app r;
          headed = headed_on header b b' (inr h) v.headed;
          ring_valid = v.ring_valid;
          ring_channels = v.ring_channels;
          chunks = v.chunks ++ chunk ∷ [];
          all_made = one_more header channels s.written v.chunks bytes chunk v.all_made coded;
          in_order = rw (more, append-nil (audio_of v.chunks ++ samples)) v.in_order;
          blocks = suc v.blocks;
          whole_blocks =
              ap length more
              ∙ omega (arith, length-append (audio_of v.chunks) samples, v.whole_blocks, v.live.1);
        })

    wake-Sound :
        (received : List A) (now : ℕ) (p : Phase) (s : System A)
        → s.phase ≡ p
        → SoundOf header channels received s.ring s.written p
        → Sound header channels received (wake encode_frame f32_to_i16 now p s)
    unfolding wake
    wake-Sound received now (idle b) s e v = rw e v
    wake-Sound received now (pacing samples n b) s e v =
        hand_over received now samples n b s _ v
          (encode_current_lem encode_frame encodes channels samples n b v.live.0 v.live.1)
    wake-Sound received now (done b app) s e v = rw e v

    push-Sound :
        (received : List A) (samples : List A) (s : System A)
        → length samples ≤ max_samples
        → length s.ring.buf + length samples ≤ s.ring.capacity_samples
        → Sound header channels received s
        → SoundOf header channels (received ++ samples) (push_f32 samples s.ring) s.written s.phase
    push-Sound received samples s fit room v = record {
      live = v.live;
      headed = v.headed;
      ring_valid = push_f32-IsValid s.ring samples v.ring_valid fit;
      ring_channels = (push_f32-fields s.ring samples).0 ∙ v.ring_channels;
      chunks = v.chunks;
      all_made = v.all_made;
      in_order =
          rw (kept, map-append)
            (sym (
                append_assoc (audio_of v.chunks ++ pending s.phase) (map f32_to_i16 s.ring.buf)
                  (map f32_to_i16 samples))
              ∙ ap (λ xs. xs ++ map f32_to_i16 samples) v.in_order
              ∙ sym (map-append f32_to_i16 received samples));
      blocks = v.blocks;
      whole_blocks = v.whole_blocks;
    }
      where
        kept : (push_f32 samples s.ring).buf ≡ s.ring.buf ++ samples
        kept =
            buf-push_f32 s.ring samples v.ring_valid fit
            ∙ ap (λ k. drop k (s.ring.buf ++ samples)) {y = 0}
                (omega (arith, length-append s.ring.buf samples))

    step-Sound :
        (received : List A) (e : Event A) (s : System A)
        → HasRoom e s.ring
        → Sound header channels received s
        → Sound header channels (received ++ arriving e) (step encode_frame f32_to_i16 e s)
    unfolding step
    step-Sound received (pushes samples) s room v = push-Sound received samples s room.0 room.1 v
    step-Sound received (interferes app) s room v = rw append-nil v
    step-Sound received (turns split first_now now) s room v =
        rw append-nil (take_turn-Sound received split first_now now s.phase s refl v)
    step-Sound received (wakes now) s room v =
        rw append-nil (wake-Sound received now s.phase s refl v)

    -- When the FLAC library encodes every full block and every push fits the ring: from a sound
    -- state on, however turns, sleeps, pushes and other requests interleave, the bytes of each chunk
    -- that is written are the stream header, or what the library makes of a block of silence or of a
    -- block of audio; the audio of these blocks, the block that waits for its pace and the ring's
    -- rest are, in this order, all the audio received; and the body ends only when it is superseded.
    pub run-Sound :
        (received : List A) (es : List (Event A)) (s : System A)
        → NothingLost es s
        → Sound header channels received s
        → Sound header channels (received ++ all_arriving es) (run encode_frame f32_to_i16 es s)
    unfolding run
    run-Sound received [] s room v = rw append-nil v
    run-Sound received (e ∷ es) s room v =
        rw (← append_assoc received (arriving e) (all_arriving es)) (
          run-Sound (received ++ arriving e) es (step encode_frame f32_to_i16 e s) room.1
            (step-Sound received e s room.0 v))
