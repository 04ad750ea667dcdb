-- ===== src/Media/LiveWav/Layout.antt =====
-- The bytes of a live WAV body (media/http.rs) in order: header, silence, audio, pad.
use play_on_air.Prelude.{
  ℕ, zero, suc, ◌+◌, ◌/◌, ◌%◌, ◌≤◌, ◌<◌, ◌≡◌, refl, sym, ap, ◌∙◌, ◌⊎◌, inl, inr, List, [], ◌∷◌,
  ◌++◌, map, replicate, take, drop, length, Option, none, some, arith, append-nil, append_assoc,
  map-append, take-append-drop,
}
use play_on_air.Media.LiveWav.{le_bytes}
use play_on_air.Media.LiveWav.Runs.{Phase, idle, pacing, done}

abbrev pub or_nil : Option (List ℕ) → List ℕ
or_nil none = []
or_nil (some bytes) = bytes

-- What a body has sent, is about to send after its sleep, and has not begun with.
abbrev pub bytes_of : List ℕ → Phase → List ℕ
bytes_of sent (idle b) = sent ++ or_nil b.header
bytes_of sent (pacing chunk n b) = sent ++ chunk
bytes_of sent (done b app) = sent ++ or_nil b.header

pub le_bytes-append : (xs ys : List ℕ) → le_bytes (xs ++ ys) ≡ le_bytes xs ++ le_bytes ys
le_bytes-append [] ys = refl
le_bytes-append (x ∷ xs) ys = ap (λ bs. (x % 256) ∷ (x / 256 % 256) ∷ bs) (le_bytes-append xs ys)

pub replicate-append : (m n : ℕ) → replicate m (zero) ++ replicate n zero ≡ replicate (m + n) zero
replicate-append zero n = ap (λ (k : ℕ). replicate k zero) {x = n} {y = zero + n} (omega arith)
replicate-append (suc m) n =
    let e : suc m + n ≡ suc (m + n) = omega arith in rw e (ap (◌∷◌ zero) (replicate-append m n))

module _ {A : Type 0} (f32_to_i16 : A → ℕ) where
  -- Header, silence, audio, and a pad that only a complete body has.
  pub record Plays (header : List ℕ) (received buf : List A) (preroll cap : ℕ) (bytes : List ℕ)
      : Type 0 where
    pub silence : ℕ
    pub heard : List A
    pub pad : ℕ
    pub layout :
        bytes
        ≡ header ++ (replicate silence 0 ++ (le_bytes (map f32_to_i16 heard) ++ replicate pad 0))
    pub in_order : heard ++ buf ≡ received
    pub silence_first : (heard ≡ []) ⊎ (preroll ≡ 0)
    pub pad_last : (pad ≡ 0) ⊎ (length bytes ≡ cap)

  module _ (header : List ℕ) (received : List A) (cap : ℕ) where
    pub open_end :
        (buf : List A) (preroll : ℕ) (bytes : List ℕ)
        → (p : Plays header received buf preroll cap bytes) → length bytes < cap
        → bytes ≡ header ++ (replicate p.silence 0 ++ le_bytes (map f32_to_i16 p.heard))
    open_end buf preroll bytes p below = p.layout ∙ closed p.pad p.pad_last
      where
        closed :
            (pad : ℕ)
            → (pad ≡ 0) ⊎ (length bytes ≡ cap)
            → header
                ++ (replicate p.silence 0 ++ (le_bytes (map f32_to_i16 p.heard) ++ replicate pad 0))
              ≡ header ++ (replicate p.silence 0 ++ le_bytes (map f32_to_i16 p.heard))
        closed pad (inl e) = rw (e, append-nil)
        closed pad (inr e) = absurd (omega arith)

    pub Plays-audio :
        (buf : List A) (preroll : ℕ) (bytes : List ℕ) (k : ℕ) (preroll' : ℕ)
        → Plays header received buf preroll cap bytes
        → length bytes < cap
        → preroll' ≡ 0
        → Plays header received
            (drop k buf)
            preroll'
            cap
            (bytes ++ le_bytes (map f32_to_i16 (take k buf)))
    Plays-audio buf preroll bytes k preroll' p below e = record {
      silence = p.silence;
      heard = p.heard ++ take k buf;
      pad = 0;
      layout =
          rw (open_end buf preroll bytes p below)
            (simp (map-append, le_bytes-append, append_assoc, append-nil));
      in_order =
          append_assoc p.heard (take k buf) (drop k buf)
          ∙ ap (◌++◌ p.heard) (take-append-drop k buf)
          ∙ p.in_order;
      silence_first = inr e;
      pad_last = inl refl;
    }

    pub Plays-silence :
        (buf : List A) (preroll : ℕ) (bytes : List ℕ) (m : ℕ) (preroll' : ℕ)
        → Plays header received buf preroll cap bytes
        → length bytes < cap
        → 0 < preroll
        → Plays header received buf preroll' cap (bytes ++ replicate m 0)
    Plays-silence buf preroll bytes m preroll' p below more = record {
      silence = p.silence + m;
      heard = [];
      pad = 0;
      layout =
          rw (open_end buf preroll bytes p below, none_heard p.silence_first)
            (simp (← replicate-append, append_assoc, append-nil));
      in_order = ap (λ h. h ++ buf) (sym (none_heard p.silence_first)) ∙ p.in_order;
      silence_first = inl refl;
      pad_last = inl refl;
    }
      where
        none_heard : (p.heard ≡ []) ⊎ (preroll ≡ 0) → p.heard ≡ []
        none_heard (inl e) = e
        none_heard (inr e) = absurd (omega arith)

    pub Plays-pad :
        (buf : List A) (preroll : ℕ) (bytes : List ℕ) (m : ℕ) (preroll' : ℕ)
        → Plays header received buf preroll cap bytes
        → length bytes < cap
        → preroll' ≤ preroll
        → length (bytes ++ replicate {A = ℕ} m 0) ≡ cap
        → Plays header received buf preroll' cap (bytes ++ replicate m 0)
    Plays-pad buf preroll bytes m preroll' p below falls full = record {
      silence = p.silence;
      heard = p.heard;
      pad = m;
      layout = rw (open_end buf preroll bytes p below) (simp append_assoc);
      in_order = p.in_order;
      silence_first = still p.silence_first;
      pad_last = inr full;
    }
      where
        still : (p.heard ≡ []) ⊎ (preroll ≡ 0) → (p.heard ≡ []) ⊎ (preroll' ≡ 0)
        still (inl e) = inl e
        still (inr e) = inr (omega arith)

    pub Plays-falls :
        (buf : List A) (preroll : ℕ) (bytes : List ℕ) (preroll' : ℕ)
        → Plays header received buf preroll cap bytes
        → preroll' ≤ preroll
        → Plays header received buf preroll' cap bytes
    Plays-falls buf preroll bytes preroll' p falls = record {
      silence = p.silence;
      heard = p.heard;
      pad = p.pad;
      layout = p.layout;
      in_order = p.in_order;
      silence_first = still p.silence_first;
      pad_last = p.pad_last;
    }
      where
        still : (p.heard ≡ []) ⊎ (preroll ≡ 0) → (p.heard ≡ []) ⊎ (preroll' ≡ 0)
        still (inl e) = inl e
        still (inr e) = inr (omega arith)
