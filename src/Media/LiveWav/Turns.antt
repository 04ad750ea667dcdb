-- ===== src/Media/LiveWav/Turns.antt =====
-- One turn of a live WAV body (media/http.rs): what it may do next, on every branch.
use play_on_air.Prelude.{
  ℕ, ◌*◌, ◌/◌, ◌≤◌, ◌<◌, ◌≡◌, refl, sym, ap, ◌∙◌, ◌⊎◌, inl, inr, true, ◌&&◌, List, map, take, drop,
  replicate, length, leb, ltb, ◌==◌, Option, none, some, arith, length-take, length-map,
  length-replicate, Bool-cases, ==_iff, ltb→lt, leb→le,
}
use play_on_air.Audio.PcmRing.{PcmRing, pop_i16}
use play_on_air.Audio.PcmRing.Order.{IsValid, poppable, mul-div-le, pop_i16_lem}
use play_on_air.Audio.PcmRing.History.{pop_i16-IsValid, pop_i16-channels}
use play_on_air.Media.State.{AppState}
use play_on_air.Media.Server.{WavBody}
use play_on_air.Media.LiveWav.{
  is_superseded, le_bytes, Turn, ends, emits, paces, underruns, remaining, frames_fit, preroll_turn,
  paced, log_due, pop_turn, header_turn, turn, maybe_log_ring_drops,
}
use play_on_air.Media.LiveWav.Ready.{
  Fits, Follows, Follows-preroll, HeaderFits, IsReady, Silent, audio-Fits, not_silent, not_zero,
  pad-Fits, silence-Fits, silence-zeros,
}

module _ {A : Type 0} (f32_to_i16 : A → ℕ) where
  -- A chunk of audio: the oldest samples of the ring, which no longer holds them.
  abbrev pub Taken : WavBody → PcmRing A → List ℕ → PcmRing A → Type 0
  Taken b ring chunk ring' =
      (b.header ≡ none)
      × (b.preroll_frames_left ≡ 0)
      × ((k : ℕ) × (chunk ≡ le_bytes (map f32_to_i16 (take k ring.buf)))
          × (ring'.buf ≡ drop k ring.buf))
      × IsValid ring'
      × (ring'.channels ≡ ring.channels)

  abbrev pub Outcome : AppState → PcmRing A → WavBody → Turn × PcmRing A → Type 0
  Outcome s ring b (ends, ring') =
      (ring' ≡ ring) × ((is_superseded b s ≡ true) ⊎ (b.bytes_sent ≡ b.threshold))
  Outcome s ring b (emits chunk n b', ring') =
      (ring' ≡ ring) × Follows b b' × Fits b chunk × Silent b chunk
  Outcome s ring b (paces sleep chunk n b', ring') =
      Follows b b' × Fits b chunk × Taken b ring chunk ring'
  Outcome s ring b (underruns b', ring') =
      Follows b b'
      × (b.header ≡ none)
      × (b.preroll_frames_left ≡ 0)
      × (length ring.buf / ring.channels ≡ 0)
      × (ring'.buf ≡ ring.buf)
      × IsValid ring'
      × (ring'.channels ≡ ring.channels)

  module _ (s : AppState) (ring : PcmRing A) (b : WavBody) (ready : IsReady b) where
    preroll_turn-Outcome :
        b.header ≡ none
        → b.bytes_sent < b.threshold
        → 0 < b.preroll_frames_left
        → Outcome s ring b (preroll_turn b, ring)
    unfolding preroll_turn
    preroll_turn-Outcome gone below more = elim (Bool-cases (frames_fit b == 0)) [
      | inl full ↦
          rw (not_silent b ready, full)
            (
              refl,
              Follows-preroll b b.preroll_frames_left gone (omega arith),
              pad-Fits b below,
              inr (
                gone,
                ap (λ (k : ℕ). replicate k 0) (sym (length-replicate (remaining b) 0)),
                inl more,
              ),
            )
      | inr room ↦
          rw (not_silent b ready, room)
            (
              refl,
              Follows-preroll b _ gone (omega arith),
              silence-Fits b _ ready (omega (arith, not_zero (frames_fit b) room)) (omega arith),
              inr (gone, silence-zeros _, inl more),
            )
    ]

    paced-Outcome :
        (now first_now : ℕ) (b1 : WavBody) (split want : ℕ)
        → IsValid ring
        → ring.channels ≡ b.channels
        → Follows b b1
        → ((o : Option ℕ) → Follows b (record b1 { pace_origin = o }))
        → b.header ≡ none
        → b.preroll_frames_left ≡ 0
        → 0 < want
        → want ≤ frames_fit b
        → Outcome s ring b (paced f32_to_i16 first_now now b1 (pop_i16 f32_to_i16 split want ring))
    unfolding paced
    paced-Outcome now first_now b1 split want v same f f' gone no_preroll pos fit =
        elim (Bool-cases (poppable want ring == 0)) [
          | inl dry ↦
              rw (popped.1, dry)
                (
                  f,
                  gone,
                  no_preroll,
                  no_frames ((==_iff _ _).0 dry),
                  popped.2 ∙ ap (λ k. drop k ring.buf) (no_samples ((==_iff _ _).0 dry)),
                  pop_i16-IsValid f32_to_i16 split want ring v,
                  (pop_i16-channels f32_to_i16 split want ring).0,
                )
          | inr audio ↦
              rw (popped.1, audio)
                (
                  f' _,
                  rw popped.0 (
                      audio-Fits b
                        (map f32_to_i16 (take (poppable want ring * ring.channels) ring.buf))
                        (poppable want ring) ready (not_zero _ audio) (omega (arith, fit))
                        (length-map f32_to_i16 _
                          ∙ length-take (poppable want ring * ring.channels) ring.buf
                          ∙ rw (← same)
                              (omega (arith, mul-div-le want (length ring.buf) ring.channels)))),
                  (
                    gone,
                    no_preroll,
                    (poppable want ring * ring.channels, ap le_bytes popped.0, popped.2),
                    pop_i16-IsValid f32_to_i16 split want ring v,
                    (pop_i16-channels f32_to_i16 split want ring).0,
                  ),
                )
        ]
      where
        no_frames : poppable want ring ≡ 0 → length ring.buf / ring.channels ≡ 0
        no_frames z = omega (arith, z)

        no_samples : poppable want ring ≡ 0 → poppable want ring * ring.channels ≡ 0
        no_samples z = rw z (omega arith)

        popped :
            ((pop_i16 f32_to_i16 split want ring).0
              ≡ map f32_to_i16 (take (poppable want ring * ring.channels) ring.buf))
            × ((pop_i16 f32_to_i16 split want ring).1 ≡ poppable want ring)
            × ((pop_i16 f32_to_i16 split want ring).2.buf
                ≡ drop (poppable want ring * ring.channels) ring.buf)
        popped = pop_i16_lem f32_to_i16 split want ring v

    -- Logging changes two fields that nothing else reads.
    maybe_log_form :
        (now : ℕ)
        → (seen : ℕ) × (logged : Option ℕ) × (maybe_log_ring_drops f32_to_i16 now ring b
            ≡ record b { last_drops_seen = seen; last_drop_log = logged })
    unfolding maybe_log_ring_drops
    maybe_log_form now =
        elim (Bool-cases (
          ltb b.last_drops_seen ring.frames_dropped_overflow
          && log_due f32_to_i16 b.last_drop_log now)) [
            | inl due ↦ (ring.frames_dropped_overflow, some now, rw due)
            | inr quiet ↦ (b.last_drops_seen, b.last_drop_log, rw quiet)
          ]

    pop_turn-Outcome :
        (split first_now now : ℕ)
        → IsValid ring
        → ring.channels ≡ b.channels
        → b.header ≡ none
        → b.bytes_sent < b.threshold
        → b.preroll_frames_left ≡ 0
        → Outcome s ring b (pop_turn f32_to_i16 split first_now now ring b)
    unfolding pop_turn
    pop_turn-Outcome split first_now now v same gone below no_preroll =
        let (seen, logged, e) = maybe_log_form now in
        rw (e, not_silent b ready)
          (elim (Bool-cases (frames_fit b == 0)) [
            | inl full ↦ rw full (
              refl,
              follows seen logged b.pace_origin,
              pad-Fits b below,
              inr (
                gone,
                ap (λ (k : ℕ). replicate k 0) (sym (length-replicate (remaining b) 0)),
                inr (length-replicate (remaining b) 0),
              ),
            )
            | inr room ↦ rw room (
                paced-Outcome now first_now _ split _ v same (follows seen logged b.pace_origin)
                  (follows seen logged) gone no_preroll
                  (omega (arith, not_zero (frames_fit b) room)) (omega arith))
          ])
      where
        follows :
            (seen : ℕ) (logged origin : Option ℕ)
            → Follows b
                (record b { last_drops_seen = seen; last_drop_log = logged; pace_origin = origin })
        follows seen logged origin = record {
          same_channels = refl;
          same_threshold = refl;
          same_sent = refl;
          same_generation = refl;
          header_gone = gone;
          preroll_falls = omega arith;
        }

    header_turn-Outcome :
        (o : Option (List ℕ)) (split first_now now : ℕ)
        → b.header ≡ o
        → IsValid ring
        → ring.channels ≡ b.channels
        → b.bytes_sent < b.threshold
        → Outcome s ring b (header_turn f32_to_i16 o split first_now now ring b)
    unfolding header_turn
    header_turn-Outcome none split first_now now gone v same below =
        elim (Bool-cases (ltb 0 b.preroll_frames_left)) [
          | inl more ↦ rw more (preroll_turn-Outcome gone below (ltb→lt _ _ more))
          | inr over ↦
              rw over (pop_turn-Outcome split first_now now v same gone below (ground arith))
        ]
    header_turn-Outcome (some header) split first_now now e v same below =
        (refl, follows, header_fits, inl e)
      where
        follows : Follows b (record b { header = none })
        follows = record {
          same_channels = refl;
          same_threshold = refl;
          same_sent = refl;
          same_generation = refl;
          header_gone = refl;
          preroll_falls = omega arith;
        }

        header_fits : Fits b header
        header_fits =
            let first : HeaderFits (some header) b.bytes_sent = rw e at ready.header_first in
            omega (arith, first.0, first.1, ready.cap)

    -- Every turn of a ready body ends it, when it is superseded or complete; hands over a chunk that
    -- fits below the cap, of header, silence or audio from the ring; or found no whole frame.
    pub turn-Outcome :
        (split first_now now : ℕ)
        → IsValid ring
        → ring.channels ≡ b.channels
        → Outcome s ring b (turn f32_to_i16 split first_now now s ring b)
    unfolding turn
    turn-Outcome split first_now now v same = elim (Bool-cases (is_superseded b s)) [
      | inl gone ↦ rw gone (refl, inl gone)
      | inr current ↦ rw current (elim (Bool-cases (leb b.threshold b.bytes_sent)) [
        | inl complete ↦ rw complete (refl, inr (omega (arith, ready.within, leb→le _ _ complete)))
        | inr open_ ↦
            rw open_ (header_turn-Outcome b.header split first_now now refl v same (ground arith))
      ])
    ]
