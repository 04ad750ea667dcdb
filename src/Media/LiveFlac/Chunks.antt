-- ===== src/Media/LiveFlac/Chunks.antt =====
-- What the chunks of a live FLAC body (media/http.rs) are made of, and what a phase still holds.
use play_on_air.Prelude.{
  ℕ, ◌*◌, ◌≡◌, refl, sym, ap, ◌∙◌, inl, inr, true, List, [], ◌∷◌, ◌++◌, length, Option, none, some,
  arith, append_assoc,
}
use play_on_air.Audio.Flac.{LiveFlacEncoder}
use play_on_air.Media.Server.{FlacBody}
use play_on_air.Media.LiveFlac.{is_superseded}
use play_on_air.Media.LiveFlac.Turns.{IsReady, StillHeaded}
use play_on_air.Media.LiveFlac.Runs.{Phase, idle, pacing, done}

-- The audio of a block that waits for its pace.
abbrev pub pending : Phase → List ℕ
pending (idle b) = []
pending (pacing samples n b) = samples
pending (done b app) = []

abbrev pub IsLive : ℕ → Phase → Type 0
IsLive channels (idle b) = IsReady channels b
IsLive channels (pacing samples n b) = IsReady channels b × (length samples ≡ 2048 * channels)
IsLive channels (done b app) = is_superseded b app ≡ true

-- The header, if it was not handed over, is this one.
abbrev pub HeaderIs : List ℕ → Option (List ℕ) → Type 0
HeaderIs header none = Unit {0}
HeaderIs header (some bytes) = bytes ≡ header

abbrev pub Headed : List ℕ → Phase → Type 0
Headed header (idle b) = HeaderIs header b.header
Headed header (pacing samples n b) = HeaderIs header b.header
Headed header (done b app) = Unit {0}

-- What a chunk was made of; an encoder is in the state that it encodes the block in.
pub data Chunk : Type 0 where
  header_chunk : Chunk
  silence_chunk : LiveFlacEncoder → Chunk
  audio_chunk : LiveFlacEncoder → List ℕ → Chunk

abbrev pub audio_of : List Chunk → List ℕ
audio_of [] = []
audio_of (header_chunk ∷ chunks) = audio_of chunks
audio_of (silence_chunk e ∷ chunks) = audio_of chunks
audio_of (audio_chunk e samples ∷ chunks) = samples ++ audio_of chunks

pub audio_of-append :
    (chunks more : List Chunk) → audio_of (chunks ++ more) ≡ audio_of chunks ++ audio_of more
audio_of-append [] more = refl
audio_of-append (header_chunk ∷ chunks) more = audio_of-append chunks more
audio_of-append (silence_chunk e ∷ chunks) more = audio_of-append chunks more
audio_of-append (audio_chunk e samples ∷ chunks) more =
    ap (λ xs. samples ++ xs) (audio_of-append chunks more)
    ∙ sym (append_assoc samples (audio_of chunks) (audio_of more))

pub headed_on :
    (header : List ℕ) (b b' : FlacBody)
    → StillHeaded b b'
    → HeaderIs header b.header
    → HeaderIs header b'.header
headed_on header b b' (inl e) h = rw e tt
headed_on header b b' (inr e) h = rw e h

pub header_is :
    (header bytes : List ℕ) (o : Option (List ℕ))
    → o ≡ some bytes
    → HeaderIs header o
    → bytes ≡ header
header_is header bytes none e h = absurd (ground (arith, e))
header_is header bytes (some x) e h = cc (e, h)
