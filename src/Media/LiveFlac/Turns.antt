-- ===== src/Media/LiveFlac/Turns.antt =====
-- One turn of a live FLAC body (media/http.rs): what it may do next, on every branch.
use play_on_air.Prelude.{
  ℕ, ◌-◌, ◌*◌, ◌/◌, ◌%◌, ◌≤◌, ◌<◌, ◌≡◌, ◌⊎◌, refl, ap, ◌∙◌, inl, inr, min, true, ◌&&◌, List, map,
  take, drop, replicate, length, ltb, ◌==◌, Option, none, some, arith, length-take, length-map,
  length-replicate, Bool-cases, ==_iff, ltb→lt,
}
use play_on_air.Prelude.Words.{u16_max, u64_max, saturating_add, saturating_mul}
use play_on_air.Audio.PcmRing.{PcmRing, pop_i16, available_frames}
use play_on_air.Audio.PcmRing.Order.{IsValid, poppable, mul-div-le, pop_i16_lem}
use play_on_air.Audio.PcmRing.History.{pop_i16-IsValid, pop_i16-channels}
use play_on_air.Audio.Flac.{LiveFlacEncoder, flac_block_size, encode_block}
use play_on_air.Media.State.{AppState}
use play_on_air.Media.Server.{FlacBody}
use play_on_air.Media.LiveWav.{log_due}
use play_on_air.Media.LiveFlac.{
  is_superseded, Turn, ends, emits, paces, waits, encode_current, preroll_turn, popped, pop_turn,
  header_turn, turn, maybe_log_ring_drops,
}

-- What a body keeps between two turns: the silence that is left is whole blocks.
pub record IsReady (channels : ℕ) (b : FlacBody) : Type 0 where
  pub has_channel : 1 ≤ channels
  pub channels_word : channels ≤ u16_max
  pub same_channels : b.channels ≡ channels
  pub encoder_channels : b.encoder.channels ≡ channels
  pub whole : b.preroll_frames_left % flac_block_size ≡ 0

-- The FLAC library encodes every full block.
abbrev pub Encodes : (LiveFlacEncoder → List ℕ → Option (List ℕ)) → Type 0
Encodes encode_frame =
    (e : LiveFlacEncoder) (samples : List ℕ)
    → length samples ≡ flac_block_size * e.channels
    → (bytes : List ℕ) × (encode_frame e samples ≡ some bytes)

-- The header of a body is handed over or kept.
abbrev pub StillHeaded : FlacBody → FlacBody → Type 0
StillHeaded b b' = (b'.header ≡ none) ⊎ (b'.header ≡ b.header)

module _ (encode_frame : LiveFlacEncoder → List ℕ → Option (List ℕ)) {A : Type 0}
    (f32_to_i16 : A → ℕ) (channels : ℕ) where
  -- The samples of one block.
  abbrev pub block : ℕ
  block = flac_block_size * channels

  abbrev pub Outcome : AppState → PcmRing A → FlacBody → Turn × PcmRing A → Type 0
  Outcome s ring b (ends, ring') = (ring' ≡ ring) × (is_superseded b s ≡ true)
  Outcome s ring b (emits chunk n b', ring') =
      (ring' ≡ ring)
      × IsReady channels b'
      × StillHeaded b b'
      × ((b.header ≡ some chunk)
          ⊎ ((e : LiveFlacEncoder) × (encode_frame e (replicate block 0) ≡ some chunk)))
  Outcome s ring b (paces sleep samples n b', ring') =
      IsReady channels b'
      × (samples ≡ map f32_to_i16 (take block ring.buf))
      × (length samples ≡ block)
      × (ring'.buf ≡ drop block ring.buf)
      × IsValid ring'
      × (ring'.channels ≡ ring.channels)
      × StillHeaded b b'
  Outcome s ring b (waits b', ring') = (ring' ≡ ring) × IsReady channels b' × StillHeaded b b'

module _ (encode_frame : LiveFlacEncoder → List ℕ → Option (List ℕ))
    (encodes : Encodes encode_frame) (channels : ℕ) where
  -- A full block is encoded, and only the encoder moves on.
  pub encode_current_lem :
      (samples : List ℕ) (n : ℕ) (b : FlacBody)
      → IsReady channels b
      → length samples ≡ flac_block_size * channels
      → (chunk : List ℕ) × (b' : FlacBody) × (encode_current encode_frame samples n b
          ≡ emits chunk n b')
        × IsReady channels b'
        × (encode_frame b.encoder samples ≡ some chunk)
        × (b'.header ≡ b.header)
  unfolding encode_current encode_block
  encode_current_lem samples n b r full =
      let (bytes, e) = encodes b.encoder samples (omega (arith, full, r.encoder_channels)) in
      let fits : (length samples == saturating_mul u64_max flac_block_size b.encoder.channels)
          ≡ true =
        (==_iff _ _).1 (omega (arith, full, r.encoder_channels, r.channels_word)) in
      (
        bytes,
        record b {
          encoder = record b.encoder {
            frame_number = saturating_add u64_max b.encoder.frame_number 1;
          };
        },
        rw (fits, e) refl,
        record {
          has_channel = r.has_channel;
          channels_word = r.channels_word;
          same_channels = r.same_channels;
          encoder_channels = r.encoder_channels;
          whole = r.whole;
        },
        e,
        refl,
      )

  module _ {A : Type 0} (f32_to_i16 : A → ℕ) (s : AppState) (ring : PcmRing A) (b : FlacBody)
      (r : IsReady channels b) where
    decided-Outcome :
        (t : Turn)
        → (chunk : List ℕ) × (b' : FlacBody) × (t ≡ emits chunk 2048 b')
          × IsReady channels b'
          × ((e : LiveFlacEncoder) × (encode_frame e
                  (replicate (block encode_frame f32_to_i16 channels) 0)
                ≡ some chunk))
          × (b'.header ≡ b.header)
        → Outcome encode_frame f32_to_i16 channels s ring b (t, ring)
    decided-Outcome t (chunk, b', e, r', made, h) = rw e (refl, r', inr h, inr made)

    preroll_turn-Outcome :
        0 < b.preroll_frames_left
        → Outcome encode_frame f32_to_i16 channels s ring b (preroll_turn encode_frame b, ring)
    unfolding preroll_turn
    preroll_turn-Outcome more =
        let n : min b.preroll_frames_left flac_block_size ≡ 2048 = omega (arith, r.whole) in
        let size : saturating_mul u64_max 2048 b.channels ≡ block encode_frame f32_to_i16 channels =
          omega (arith, r.same_channels, r.channels_word) in
        let (chunk, b', e, r', made, h) =
          encode_current_lem (replicate (block encode_frame f32_to_i16 channels) 0) 2048
            (record b { preroll_frames_left = b.preroll_frames_left - 2048 }) ready
            (length-replicate (block encode_frame f32_to_i16 channels) 0) in
        rw (n, size) (decided-Outcome _ (chunk, b', e, r', (b.encoder, made), h))
      where
        ready : IsReady channels (record b { preroll_frames_left = b.preroll_frames_left - 2048 })
        ready = record {
          has_channel = r.has_channel;
          channels_word = r.channels_word;
          same_channels = r.same_channels;
          encoder_channels = r.encoder_channels;
          whole = omega (arith, r.whole);
        }

    still-IsReady :
        (seen : ℕ) (logged origin : Option ℕ)
        → IsReady channels
            (record b { last_drops_seen = seen; last_drop_log = logged; pace_origin = origin })
    still-IsReady seen logged origin = record {
      has_channel = r.has_channel;
      channels_word = r.channels_word;
      same_channels = r.same_channels;
      encoder_channels = r.encoder_channels;
      whole = r.whole;
    }

    headless : IsReady channels (record b { header = none })
    headless = record {
      has_channel = r.has_channel;
      channels_word = r.channels_word;
      same_channels = r.same_channels;
      encoder_channels = r.encoder_channels;
      whole = r.whole;
    }

    paced-Outcome :
        (first_now now seen : ℕ) (logged : Option ℕ) (o : List ℕ × ℕ × PcmRing A)
        → o.0 ≡ map f32_to_i16 (take (block encode_frame f32_to_i16 channels) ring.buf)
        → o.1 ≡ 2048
        → o.2.buf ≡ drop (block encode_frame f32_to_i16 channels) ring.buf
        → length o.0 ≡ block encode_frame f32_to_i16 channels
        → IsValid o.2
        → o.2.channels ≡ ring.channels
        → Outcome encode_frame f32_to_i16 channels s ring b (
            popped encode_frame f32_to_i16 first_now now
              (record b { last_drops_seen = seen; last_drop_log = logged })
              o)
    unfolding popped
    paced-Outcome first_now now seen logged (samples, frames, rest) e n d l v same =
        rw n (still-IsReady seen logged _, e, l, d, v, same, inr refl)

    -- A whole block is popped and paced.
    popped-Outcome :
        (split first_now now : ℕ) (seen : ℕ) (logged : Option ℕ)
        → IsValid ring
        → ring.channels ≡ channels
        → 2048 ≤ length ring.buf / ring.channels
        → Outcome encode_frame f32_to_i16 channels s ring b (
            popped encode_frame f32_to_i16 first_now now
              (record b { last_drops_seen = seen; last_drop_log = logged })
              (pop_i16 f32_to_i16 split flac_block_size ring))
    popped-Outcome split first_now now seen logged v same enough =
        let (samples, frames, rest) = pop_i16_lem f32_to_i16 split flac_block_size ring v in
        let n : poppable flac_block_size ring ≡ 2048 = omega (arith, enough) in
        let k : poppable flac_block_size ring * ring.channels
            ≡ block encode_frame f32_to_i16 channels =
          rw (n, same) refl in
        let held : block encode_frame f32_to_i16 channels ≤ length ring.buf =
          omega (arith, mul-div-le 2048 (length ring.buf) ring.channels, k) in
        paced-Outcome first_now now seen logged _ (rw k at samples) (frames ∙ n) (rw k at rest)
          (ap length (rw k at samples)
            ∙ length-map f32_to_i16 _
            ∙ length-take (block encode_frame f32_to_i16 channels) ring.buf
            ∙ omega (arith, held))
          (pop_i16-IsValid f32_to_i16 split flac_block_size ring v)
          (pop_i16-channels f32_to_i16 split flac_block_size ring).0

    logged_form :
        (now : ℕ)
        → (seen : ℕ) × (logged : Option ℕ) × (maybe_log_ring_drops encode_frame f32_to_i16 now ring
              b
            ≡ record b { last_drops_seen = seen; last_drop_log = logged })
    unfolding maybe_log_ring_drops
    logged_form now =
        elim (Bool-cases (
          ltb b.last_drops_seen ring.frames_dropped_overflow
          && log_due f32_to_i16 b.last_drop_log now)) [
            | inl due ↦ (ring.frames_dropped_overflow, some now, rw due refl)
            | inr quiet ↦ (b.last_drops_seen, b.last_drop_log, rw quiet refl)
          ]

    pop_turn-Outcome :
        (split first_now now : ℕ)
        → IsValid ring
        → ring.channels ≡ channels
        → Outcome encode_frame f32_to_i16 channels s ring b
            (pop_turn encode_frame f32_to_i16 split first_now now ring b)
    unfolding pop_turn available_frames
    pop_turn-Outcome split first_now now v same =
        let (seen, logged, e) = logged_form now in
        rw e (elim (Bool-cases (ltb (length ring.buf / ring.channels) 2048)) [
          | inl short ↦ rw short (refl, still-IsReady seen logged b.pace_origin, inr refl)
          | inr enough ↦
              rw enough (popped-Outcome split first_now now seen logged v same (ground arith))
        ])

    header_turn-Outcome :
        (o : Option (List ℕ)) (split first_now now : ℕ)
        → IsValid ring
        → ring.channels ≡ channels
        → b.header ≡ o
        → Outcome encode_frame f32_to_i16 channels s ring b
            (header_turn encode_frame f32_to_i16 o split first_now now ring b)
    unfolding header_turn
    header_turn-Outcome (some header) split first_now now v same e =
        (refl, headless, inl refl, inl e)
    header_turn-Outcome none split first_now now v same e =
        elim (Bool-cases (ltb 0 b.preroll_frames_left)) [
          | inl more ↦ rw more (preroll_turn-Outcome (ltb→lt _ _ more))
          | inr over ↦ rw over (pop_turn-Outcome split first_now now v same)
        ]

    -- Every turn of a ready body ends it, when it is superseded; hands over the header or a block of
    -- silence; pops a whole block from the ring; or waits.
    pub turn-Outcome :
        (split first_now now : ℕ)
        → IsValid ring
        → ring.channels ≡ channels
        → Outcome encode_frame f32_to_i16 channels s ring b
            (turn encode_frame f32_to_i16 split first_now now s ring b)
    unfolding turn
    turn-Outcome split first_now now v same = elim (Bool-cases (is_superseded b s)) [
      | inl gone ↦ rw gone (refl, gone)
      | inr current ↦ rw current (header_turn-Outcome b.header split first_now now v same refl)
    ]
