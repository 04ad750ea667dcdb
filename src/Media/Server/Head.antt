-- ===== src/Media/Server/Head.antt =====
-- HEAD /stream against GET /stream (media/http.rs).
use play_on_air.Prelude.{ℕ, ◌≡◌, refl, ◌↔◌, ◌⊎◌, inl, inr, Bool, List, arith, max, Option, some}
use play_on_air.Prelude.Text.{Text}
use play_on_air.Error.{Error, Result, ok, err}
use play_on_air.Audio.PcmRing.{PcmRing}
use play_on_air.Audio.Wav.{continuous_wav_header}
use play_on_air.Audio.Flac.{FlacLibrary, LiveFlacEncoder}
use play_on_air.Audio.Flac
use play_on_air.Media.State.{
  MediaContent, static_body, live_wav, live_flac, empty, AppState, live_content_length,
}
use play_on_air.Media.Server.{
  Response, serve_stream, serve_stream_head, serve_content, head_of, live_wav_response,
  live_flac_response, with_header, with_encoder, flac_response, wav_response, take_over,
}

-- The status and the headers that are set, but for the length.
abbrev pub SameHeaders : Response → Response → Type 0
SameHeaders head get =
    (head.status ≡ get.status)
    × (head.content_type ≡ get.content_type)
    × (head.accept_ranges ≡ get.accept_ranges)
    × (head.cache_control ≡ get.cache_control)

-- A live FLAC stream is served, and the library fails to set up its encoder or to write its header.
abbrev pub EncoderFails : FlacLibrary → MediaContent → Type 0
EncoderFails library (static_body content_type body) = ⊥
EncoderFails library (live_wav ring channels rate) = ⊥
EncoderFails library empty = ⊥
EncoderFails library (live_flac ring channels rate) =
    ((e : Error) × (Flac.new library (max rate 1) (max channels 1) ≡ err e))
    ⊎ ((encoder : LiveFlacEncoder) × (e : Error) × (Flac.new library (max rate 1) (max channels 1)
          ≡ ok encoder)
        × (library.stream_info_bytes encoder ≡ err e))

module _ (is_header_value : Text → Bool) {A : Type 0} (rings : ℕ → PcmRing A)
    (library : FlacLibrary) where
  -- HEAD agrees with GET, or answers 200 where GET fails.
  abbrev pub HeadOf : AppState → Response → Response → Type 0
  HeadOf s head get =
      SameHeaders head get
      ⊎ (EncoderFails library s.content × (head.status ≡ 200) × (get.status ≡ 500))

  abbrev FlacHead : ℕ → ℕ → ℕ → Response → Type 0
  FlacHead ring channels rate get =
      SameHeaders (head_of is_header_value (live_flac ring channels rate)) get
      ⊎ (EncoderFails library (live_flac ring channels rate) × (get.status ≡ 500))

  header_headers :
      (ring channels rate generation : ℕ) (encoder : LiveFlacEncoder) (r : Result (List ℕ))
      → Flac.new library (max rate 1) (max channels 1) ≡ ok encoder
      → library.stream_info_bytes encoder ≡ r
      → FlacHead ring channels rate (
          with_header is_header_value rings library ring
            (max channels 1)
            (max rate 1)
            generation
            encoder
            r)
  unfolding head_of with_header flac_response
  header_headers ring channels rate generation encoder (err e) p q =
      inr (inr (encoder, e, p, q), refl)
  header_headers ring channels rate generation encoder (ok header) p q =
      inl (refl, refl, refl, refl)

  encoder_headers :
      (ring channels rate generation : ℕ) (r : Result LiveFlacEncoder)
      → Flac.new library (max rate 1) (max channels 1) ≡ r
      → FlacHead ring channels rate (
          with_encoder is_header_value rings library ring
            (max channels 1)
            (max rate 1)
            generation
            r)
  unfolding with_encoder
  encoder_headers ring channels rate generation (err e) p = inr (inl (e, p), refl)
  encoder_headers ring channels rate generation (ok encoder) p =
      header_headers ring channels rate generation encoder (library.stream_info_bytes encoder) p
        refl

  -- The headers of a live WAV stream are always made.
  wav_headers :
      (ring channels rate generation : ℕ) (s : AppState)
      → SameHeaders
          (head_of is_header_value (live_wav ring channels rate))
          (live_wav_response is_header_value rings library ring channels rate generation s)
  unfolding head_of live_wav_response wav_response continuous_wav_header
  wav_headers ring channels rate generation s = ground arith

  same_headers :
      (s : AppState) (c : MediaContent)
      → s.content ≡ c
      → HeadOf s (head_of is_header_value c) (serve_content is_header_value rings library c s).0
  unfolding serve_content head_of live_flac_response
  same_headers s (static_body content_type body) e = inl (refl, refl, refl, refl)
  same_headers s (live_wav ring channels rate) e = inl (
      wav_headers ring channels rate (take_over is_header_value rings library s).live_generation
        (take_over is_header_value rings library s))
  same_headers s (live_flac ring channels rate) e =
      elim (encoder_headers ring channels rate
        (take_over is_header_value rings library s).live_generation
        (Flac.new library (max rate 1) (max channels 1)) refl) [
          | inl same ↦ inl same
          | inr (fails, status) ↦ inr (rw e fails, refl, status)
        ]
  same_headers s empty e = inl (refl, refl, refl, refl)

  -- Whatever is served, HEAD answers with the status and the headers of GET, the length aside, but
  -- for one case: a live FLAC stream whose encoder or stream header the FLAC library refuses. There
  -- GET answers 500 and HEAD 200.
  pub head-get :
      (s : AppState)
      → HeadOf s
          (serve_stream_head is_header_value s)
          (serve_stream is_header_value rings library s).0
  unfolding serve_stream serve_stream_head
  head-get s = same_headers s s.content refl

  wav_lengths :
      (s : AppState) (ring channels rate : ℕ)
      → let c = live_wav ring channels rate in
        ((head_of is_header_value c).content_length ≡ some live_content_length)
        × ((serve_content is_header_value rings library c s).0.content_length
            ≡ some (max s.max_body_bytes 44))
  unfolding serve_content head_of live_wav_response wav_response continuous_wav_header take_over
  wav_lengths s ring channels rate = ground arith

  iff_lengths : (a m : ℕ) (x y : Option ℕ) → x ≡ some a → y ≡ some m → (x ≡ y) ↔ (m ≡ a)
  iff_lengths a m x y p q = (λ e. cc, λ e. cc)

  -- For WAV, HEAD announces the length of GET exactly while the body cap is the default one: HEAD
  -- does not follow a lowered cap.
  pub head_length_wav :
      (s : AppState) (ring channels rate : ℕ)
      → s.content ≡ live_wav ring channels rate
      → ((serve_stream_head is_header_value s).content_length
          ≡ (serve_stream is_header_value rings library s).0.content_length)
        ↔ (max s.max_body_bytes 44 ≡ live_content_length)
  unfolding serve_stream serve_stream_head
  head_length_wav s ring channels rate e =
      let (p, q) = wav_lengths s ring channels rate in
      rw e (iff_lengths live_content_length (max s.max_body_bytes 44) _ _ p q)
