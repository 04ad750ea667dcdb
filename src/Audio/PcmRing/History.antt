-- ===== src/Audio/PcmRing/History.antt =====
-- The ring (audio/pcm.rs) over any sequence of its methods.
use play_on_air.Prelude.{ℕ, ◌*◌, ◌≤◌, ◌≡◌, max, List, [], ◌∷◌, length, arith, length-drop}
use play_on_air.Audio.PcmRing.{PcmRing, new, push_f32, pop_f32, pop_i16, clear}
use play_on_air.Audio.PcmRing.Order.{IsValid, max_samples, poppable, saturating_mul-poppable}
use play_on_air.Audio.PcmRing.Bounds.{new-IsValid, push_f32-IsValid, pop_f32-IsValid}

-- A call of a method; a pop finds the deque wrapped after some number of samples.
pub data Call (A : Type 0) : Type 0 where
  pushes : List A → Call A
  pops_f32 : ℕ → Call A
  pops_i16 : ℕ → ℕ → Call A
  clears : Call A

module _ {A B : Type 0} (f32_to_i16 : A → B) where
  pub step : Call A → PcmRing A → PcmRing A
  step (pushes samples) r = push_f32 samples r
  step (pops_f32 n) r = (pop_f32 n r).2
  step (pops_i16 split n) r = (pop_i16 f32_to_i16 split n r).2
  step clears r = clear r

  pub run : List (Call A) → PcmRing A → PcmRing A
  run [] r = r
  run (c ∷ cs) r = run cs (step c r)

  -- Pushed slices fit an allocation.
  abbrev pub Fits : Call A → Type 0
  Fits (pushes samples) = length samples ≤ max_samples
  Fits _ = Unit {0}

  abbrev pub AllFit : List (Call A) → Type 0
  AllFit [] = Unit {0}
  AllFit (c ∷ cs) = Fits c × AllFit cs

  pub pop_i16-IsValid :
      (split n : ℕ) (r : PcmRing A) → IsValid r → IsValid (pop_i16 f32_to_i16 split n r).2
  unfolding pop_i16
  pop_i16-IsValid split n r v =
      rw (saturating_mul-poppable n r v)
        (ground (arith, length-drop (poppable n r * r.channels) r.buf))

  pub pop_i16-channels :
      (split n : ℕ) (r : PcmRing A)
      → ((pop_i16 f32_to_i16 split n r).2.channels ≡ r.channels)
        × ((pop_i16 f32_to_i16 split n r).2.capacity_samples ≡ r.capacity_samples)
  unfolding pop_i16
  pop_i16-channels split n r = ground arith

  step-IsValid : (c : Call A) (r : PcmRing A) → Fits c → IsValid r → IsValid (step c r)
  unfolding step clear
  step-IsValid (pushes samples) r h v = push_f32-IsValid r samples v h
  step-IsValid (pops_f32 n) r h v = pop_f32-IsValid n r v
  step-IsValid (pops_i16 split n) r h v = pop_i16-IsValid split n r v
  step-IsValid clears r h v = omega (arith, v.has_channel, v.addressable, v.counted)

  run-IsValid : (cs : List (Call A)) (r : PcmRing A) → AllFit cs → IsValid r → IsValid (run cs r)
  unfolding run
  run-IsValid [] r h v = v
  run-IsValid (c ∷ cs) r h v = run-IsValid cs (step c r) h.1 (step-IsValid c r h.0 v)

  -- A ring built for a capacity that can be allocated never holds more than it, whatever the order
  -- of pops, clears and pushes (of at most `max_samples` each).
  pub run-new-IsValid :
      (channels frames : ℕ) (cs : List (Call A))
      → frames * max channels 1 ≤ max_samples
      → AllFit cs
      → IsValid (run cs (new channels frames))
  run-new-IsValid channels frames cs h fit = run-IsValid cs _ fit (new-IsValid channels frames h)
