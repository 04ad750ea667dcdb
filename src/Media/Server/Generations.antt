-- ===== src/Media/Server/Generations.antt =====
-- Supersession (media/http.rs): at most one live body is current, and what ends it.
use play_on_air.Prelude.{
  ℕ, suc, ◌+◌, ◌%◌, ◌^◌, ◌≤◌, ◌<◌, ◌≡◌, refl, ◌⊎◌, Bool, List, [], ◌∷◌, length, arith, Option, none,
  some,
}
use play_on_air.Audio.PcmRing.{PcmRing}
use play_on_air.Audio.Flac.{FlacLibrary}
use play_on_air.Prelude.Text.{Text}
use play_on_air.Media.State.{
  MediaContent, static_body, live_wav, live_flac, empty, Artwork, AppState, set_content,
  set_artwork, set_max_body_bytes, invalidate_live, end_live_bodies, signal,
}
use play_on_air.Media.Server.{
  Body, wav, flac, serve_stream, serve_content, take_over, live_wav_response, live_flac_response,
}

-- What reaches the server: the routes that change its state, and the calls of its handle.
pub data Request : Type 0 where
  gets : Request
  sets_content : MediaContent → Request
  sets_artwork : Option Artwork → Request
  sets_max_body_bytes : ℕ → Request
  invalidates ends_bodies rolls_over : Request

-- The generation of a live body in a response.
abbrev pub body_generation : Body → Option ℕ
body_generation (wav b) = some b.generation
body_generation (flac b) = some b.generation
body_generation _ = none

abbrev pub cons_some : Option ℕ → List ℕ → List ℕ
cons_some none gs = gs
cons_some (some g) gs = g ∷ gs

module _ (is_header_value : Text → Bool) {A : Type 0} (rings : ℕ → PcmRing A)
    (library : FlacLibrary) where
  -- The body that a request starts, if it starts one, and the state after it.
  pub handle : Request → AppState → Option ℕ × AppState
  handle gets s =
      let (response, t) = serve_stream is_header_value rings library s in
      (body_generation response.body, t)
  handle (sets_content content) s = (none, set_content content s)
  handle (sets_artwork artwork) s = (none, set_artwork artwork s)
  handle (sets_max_body_bytes n) s = (none, set_max_body_bytes n s)
  handle invalidates s = (none, invalidate_live s)
  handle ends_bodies s = (none, end_live_bodies s)
  handle rolls_over s = (none, signal s)

  -- The generations of the bodies that a sequence of requests starts, and the last state.
  pub serve : List Request → AppState → List ℕ × AppState
  serve [] s = ([], s)
  serve (q ∷ qs) s =
      let (started, t) = handle q s in let (later, u) = serve qs t in (cons_some started later, u)

  -- `gs` rises strictly from above `lo` to at most `hi`.
  abbrev pub Rising : ℕ → List ℕ → ℕ → Type 0
  Rising lo [] hi = lo ≤ hi
  Rising lo (g ∷ gs) hi = (lo < g) × Rising g gs hi

  Rising-mono : (lo lo' : ℕ) (gs : List ℕ) (hi : ℕ) → lo' ≤ lo → Rising lo gs hi → Rising lo' gs hi
  Rising-mono lo lo' [] hi h r = omega arith
  Rising-mono lo lo' (g ∷ gs) hi h r = (omega arith, r.1)

  abbrev Moves : AppState → Option ℕ × AppState → Type 0
  Moves s (none, t) =
      (s.live_generation ≤ t.live_generation) × (t.live_generation ≤ suc s.live_generation)
  Moves s (some g, t) = (t.live_generation ≡ suc s.live_generation) × (g ≡ t.live_generation)

  live_wav_generation :
      (ring channels rate generation : ℕ) (s : AppState)
      → let response =
          live_wav_response is_header_value rings library ring channels rate generation s in
        (body_generation response.body ≡ none) ⊎ (body_generation response.body ≡ some generation)
  unfolding live_wav_response
  live_wav_generation ring channels rate generation s = ground arith

  live_flac_generation :
      (ring channels rate generation : ℕ)
      → let response =
          live_flac_response is_header_value rings library ring channels rate generation in
        (body_generation response.body ≡ none) ⊎ (body_generation response.body ≡ some generation)
  unfolding live_flac_response
  live_flac_generation ring channels rate generation = ground arith

  bumped-Moves :
      (s t : AppState) (o : Option ℕ)
      → suc s.live_generation < 2 ^ 64
      → t.live_generation ≡ (s.live_generation + 1) % 2 ^ 64
      → (o ≡ none) ⊎ (o ≡ some t.live_generation)
      → Moves s (o, t)
  bumped-Moves s t none h e c = omega arith
  bumped-Moves s t (some g) h e c = ground arith

  serve_content-Moves :
      (c : MediaContent) (s : AppState)
      → suc s.live_generation < 2 ^ 64
      → let (response, t) = serve_content is_header_value rings library c s in
        Moves s (body_generation response.body, t)
  unfolding serve_content
  serve_content-Moves (static_body content_type body) s h = omega arith
  serve_content-Moves (live_wav ring channels rate) s h =
      bumped-Moves s _ _ h refl
        (live_wav_generation ring channels rate _ (take_over is_header_value rings library s))
  serve_content-Moves (live_flac ring channels rate) s h =
      bumped-Moves s _ _ h refl (live_flac_generation ring channels rate _)
  serve_content-Moves empty s h = omega arith

  handle-Moves :
      (q : Request) (s : AppState) → suc s.live_generation < 2 ^ 64 → Moves s (handle q s)
  unfolding handle serve_stream set_content set_artwork set_max_body_bytes invalidate_live
      end_live_bodies signal
  handle-Moves gets s h = serve_content-Moves s.content s h
  handle-Moves (sets_content content) s h = omega arith
  handle-Moves (sets_artwork artwork) s h = omega arith
  handle-Moves (sets_max_body_bytes n) s h = omega arith
  handle-Moves invalidates s h = omega arith
  handle-Moves ends_bodies s h = omega arith
  handle-Moves rolls_over s h = omega arith

  Moves-le :
      (s : AppState) (o : Option ℕ) (t : AppState)
      → Moves s (o, t)
      → t.live_generation ≤ suc s.live_generation
  Moves-le s none t m = m.1
  Moves-le s (some g) t m = omega (arith, m.0)

  cons-Rising :
      (s : AppState) (o : Option ℕ) (t : AppState) (gs : List ℕ) (hi : ℕ)
      → Moves s (o, t)
      → Rising t.live_generation gs hi
      → Rising s.live_generation (cons_some o gs) hi
  cons-Rising s none t gs hi m r = Rising-mono _ _ gs hi m.0 r
  cons-Rising s (some g) t gs hi m r = (omega (arith, m.0, m.1), rw m.1 r)

  -- While the generation counter does not wrap, each live GET starts a body of a generation above all that came before, and the generations of
  -- the bodies rise up to the current one: whatever requests come in between, only the body of the
  -- newest GET can be current, and no generation is handed out twice.
  pub serve-Rising :
      (qs : List Request) (s : AppState)
      → s.live_generation + length qs < 2 ^ 64
      → Rising s.live_generation (serve qs s).0 (serve qs s).1.live_generation
  unfolding serve
  serve-Rising [] s h = omega arith
  serve-Rising (q ∷ qs) s h =
      let m = handle-Moves q s (omega arith) in
      let t = (handle q s).1 in
      cons-Rising s (handle q s).0 t (serve qs t).0 (serve qs t).1.live_generation m
        (serve-Rising qs t (omega (arith, Moves-le s (handle q s).0 t m)))
