-- ===== src/Media/LiveWav/Ready.antt =====
-- What a live WAV body (media/http.rs) keeps between its turns, and the sizes of its chunks.
use play_on_air.Prelude.{
  ℕ, zero, suc, ◌*◌, ◌≤◌, ◌<◌, ◌≡◌, refl, ap, ◌∙◌, ◌⊎◌, false, List, [], ◌∷◌, replicate, length,
  ◌==◌, Option, none, some, arith, length-replicate,
}
use play_on_air.Prelude.Words.{u16_max, u64_max, saturating_mul}
use native.Mathlib.Nat.{le-div_iff_mul-le}
use play_on_air.Media.Server.{WavBody}
use play_on_air.Media.LiveWav.{le_bytes, remaining, frames_fit}

pub length-le_bytes : (vs : List ℕ) → length (le_bytes vs) ≡ length vs * 2
length-le_bytes [] = refl
length-le_bytes (v ∷ vs) = omega (arith, length-le_bytes vs)

pub le_bytes-replicate : (n : ℕ) → le_bytes (replicate n 0) ≡ replicate (n * 2) 0
le_bytes-replicate zero = refl
le_bytes-replicate (suc n) =
    let e : suc n * 2 ≡ suc (suc (n * 2)) = omega arith in
    rw e (ap (λ bs. 0 ∷ 0 ∷ bs) (le_bytes-replicate n))

abbrev pub HeaderFits : Option (List ℕ) → ℕ → Type 0
HeaderFits none sent = Unit {0}
HeaderFits (some header) sent = (length header ≡ 44) × (sent ≡ 0)

-- What a body keeps between two turns.
pub record IsReady (b : WavBody) : Type 0 where
  pub has_channel : 1 ≤ b.channels
  pub channels_word : b.channels ≤ u16_max
  pub cap : 44 ≤ b.threshold
  pub cap_word : b.threshold ≤ u64_max
  pub within : b.bytes_sent ≤ b.threshold
  pub header_first : HeaderFits b.header b.bytes_sent

-- The body after a turn, before its chunk is handed over.
pub record Follows (b b' : WavBody) : Type 0 where
  pub same_channels : b'.channels ≡ b.channels
  pub same_threshold : b'.threshold ≡ b.threshold
  pub same_sent : b'.bytes_sent ≡ b.bytes_sent
  pub same_generation : b'.generation ≡ b.generation
  pub header_gone : b'.header ≡ none
  pub preroll_falls : b'.preroll_frames_left ≤ b.preroll_frames_left

-- A chunk has bytes, and they fit below the cap.
abbrev pub Fits : WavBody → List ℕ → Type 0
Fits b chunk = (0 < length chunk) × (length chunk ≤ remaining b)

-- A chunk that is no audio: the header, or silence, which comes before any audio or fills the
-- partial frame below the cap.
abbrev pub Silent : WavBody → List ℕ → Type 0
Silent b chunk =
    (b.header ≡ some chunk)
    ⊎ ((b.header ≡ none)
        × (chunk ≡ replicate (length chunk) 0)
        × ((0 < b.preroll_frames_left) ⊎ (length chunk ≡ remaining b)))

pub Follows-preroll :
    (b : WavBody) (left : ℕ)
    → b.header ≡ none
    → left ≤ b.preroll_frames_left
    → Follows b (record b { preroll_frames_left = left })
Follows-preroll b left e h = record {
  same_channels = refl;
  same_threshold = refl;
  same_sent = refl;
  same_generation = refl;
  header_gone = e;
  preroll_falls = h;
}

pub pad-Fits : (b : WavBody) → b.bytes_sent < b.threshold → Fits b (replicate (remaining b) 0)
pad-Fits b below = omega (arith, length-replicate {A = ℕ} (remaining b) 0)

pub two_bytes : (b : WavBody) → IsReady b → saturating_mul u64_max b.channels 2 ≡ b.channels * 2
two_bytes b ready = omega (arith, ready.channels_word)

pub not_silent : (b : WavBody) → IsReady b → (saturating_mul u64_max b.channels 2 == 0) ≡ false
not_silent b ready = rw (two_bytes b ready) (ground (arith, ready.has_channel))

-- Frames that fit below the cap, in bytes.
pub frames-le :
    (b : WavBody) (n : ℕ) → IsReady b → n ≤ frames_fit b → n * (b.channels * 2) ≤ remaining b
frames-le b n ready h =
    let pos : 0 < b.channels * 2 = omega (arith, ready.has_channel) in
    (le-div_iff_mul-le pos).0 (rw (two_bytes b ready) at h)

pub mul_pos : (n c : ℕ) → 0 < n → 0 < c → 0 < n * c
mul_pos n c h k = grind arith

pub not_zero : (n : ℕ) → (n == 0) ≡ false → 0 < n
not_zero n h = ground arith

pub silence-Fits :
    (b : WavBody) (n : ℕ)
    → IsReady b
    → 0 < n
    → n ≤ frames_fit b
    → Fits b (le_bytes (replicate (saturating_mul u64_max n b.channels) 0))
silence-Fits b n ready pos h =
    let total = frames-le b n ready h in
    let some_bytes = mul_pos n b.channels pos ready.has_channel in
    let m = saturating_mul u64_max n b.channels in
    let e : length (le_bytes (replicate {A = ℕ} m 0)) ≡ m * 2 =
      length-le_bytes (replicate m 0) ∙ ap (λ (k : ℕ). k * 2) (length-replicate m 0) in
    rw e (omega (arith, total, some_bytes, ready.cap_word))

pub audio-Fits :
    (b : WavBody) (samples : List ℕ) (k : ℕ)
    → IsReady b
    → 0 < k
    → k ≤ frames_fit b
    → length samples ≡ k * b.channels
    → Fits b (le_bytes samples)
audio-Fits b samples k ready pos h e =
    rw (length-le_bytes samples, e)
      (omega (arith, frames-le b k ready h, mul_pos k b.channels pos ready.has_channel))

pub silence-zeros :
    (m : ℕ) → le_bytes (replicate m 0) ≡ replicate (length (le_bytes (replicate m 0))) 0
silence-zeros m =
    let e : length (le_bytes (replicate m 0)) ≡ m * 2 =
      length-le_bytes (replicate m 0) ∙ ap (λ (k : ℕ). k * 2) (length-replicate m 0) in
    rw e (le_bytes-replicate m)
