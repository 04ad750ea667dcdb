-- ===== src/Audio/PcmRing/Order.antt =====
-- What the operations of the ring (audio/pcm.rs) do to the sequence of samples.
use play_on_air.Prelude.{
  ℕ, zero, suc, ◌+◌, ◌-◌, ◌*◌, ◌/◌, ◌^◌, ◌≤◌, ◌<◌, ◌≡◌, refl, ap, min, List, [], ◌∷◌, ◌++◌, map,
  length, take, drop, ◌==◌, arith, append-nil, map-append, length-append, take-append, drop-append,
  take-append-drop, Bool-cases, ==_iff, inl, inr,
}
use play_on_air.Prelude.Words.{u64_max, saturating_mul}
use play_on_air.Audio.PcmRing.{PcmRing, push_f32, push_samples, pop_f32, pop_i16, take_slices}

-- A slice or deque of 4-byte samples has at most `isize::MAX` bytes.
abbrev pub max_samples : ℕ
max_samples = (2 ^ 63 - 1) / 4

-- What `new` sets up and every method keeps.
pub record IsValid {A : Type 0} (r : PcmRing A) : Type 0 where
  pub has_channel : 1 ≤ r.channels
  pub bounded : length r.buf ≤ r.capacity_samples
  pub addressable : r.capacity_samples ≤ max_samples
  pub counted : r.frames_dropped_overflow < 2 ^ 64

module _ {A : Type 0} where
  pub drop-min : (k : ℕ) (xs : List A) → drop (min k (length xs)) xs ≡ drop k xs
  drop-min zero [] = refl
  drop-min (suc k) [] = ground arith
  drop-min zero (x ∷ xs) = ground arith
  drop-min (suc k) (x ∷ xs) =
      let e : min (suc k) (suc (length xs)) ≡ suc (min k (length xs)) = omega arith in
      rw e (drop-min k xs)

  pub take-min : (k : ℕ) (xs : List A) → take (min k (length xs)) xs ≡ take k xs
  take-min zero [] = refl
  take-min (suc k) [] = ground arith
  take-min zero (x ∷ xs) = ground arith
  take-min (suc k) (x ∷ xs) =
      let e : min (suc k) (suc (length xs)) ≡ suc (min k (length xs)) = omega arith in
      rw e (ap (◌∷◌ x) (take-min k xs))

  -- The last `cap` samples.
  abbrev pub newest : ℕ → List A → List A
  newest cap xs = drop (length xs - cap) xs

  buf-push_samples :
      (r : PcmRing A) (samples : List A)
      → IsValid r
      → length samples ≤ max_samples
      → (push_samples samples r).buf ≡ newest r.capacity_samples (r.buf ++ samples)
  unfolding push_samples
  buf-push_samples r samples v h =
      let k = length r.buf + length samples - r.capacity_samples in
      rw (length-append r.buf samples)
        (ground (arith, drop-append k r.buf samples, drop-min k r.buf))

  -- After a push of at most `max_samples` a valid ring holds the newest samples: overflow drops from the head of what was held and pushed.
  pub buf-push_f32 :
      (r : PcmRing A) (samples : List A)
      → IsValid r
      → length samples ≤ max_samples
      → (push_f32 samples r).buf ≡ newest r.capacity_samples (r.buf ++ samples)
  unfolding push_f32
  buf-push_f32 r [] v h =
      rw append-nil
        (let e : length r.buf - r.capacity_samples ≡ 0 = omega (arith, v.bounded) in rw e)
  buf-push_f32 r (s ∷ samples) v h = buf-push_samples r (s ∷ samples) v h

-- The whole frames that a pop of at most `n` frames takes.
abbrev pub poppable : {A : Type 0} → ℕ → PcmRing A → ℕ
poppable n r = min n (length r.buf / r.channels)

pub mul-div-le : (n l c : ℕ) → min n (l / c) * c ≤ l
mul-div-le n l c = grind arith

pub saturating_mul-poppable :
    {A : Type 0} (n : ℕ) (r : PcmRing A)
    → IsValid r
    → saturating_mul u64_max (poppable n r) r.channels ≡ poppable n r * r.channels
saturating_mul-poppable n r v = omega (arith, mul-div-le n (length r.buf) r.channels, v.addressable)

module _ {A B : Type 0} (f32_to_i16 : A → B) where
  take_slices_lem :
      (n : ℕ) (xs ys : List A)
      → take_slices f32_to_i16 n (xs, ys) ≡ map f32_to_i16 (take n (xs ++ ys))
  unfolding take_slices
  take_slices_lem n xs ys =
      rw (take-append n xs ys, map-append)
        (ground (arith, take-min n xs, append-nil (map f32_to_i16 (take n xs))))

  -- A pop from a valid ring hands over the oldest whole frames in order, converted, wherever the deque's storage
  -- wraps, and leaves the rest.
  pub pop_i16_lem :
      (split n : ℕ) (r : PcmRing A)
      → IsValid r
      → ((pop_i16 f32_to_i16 split n r).0 ≡ map f32_to_i16 (take (poppable n r * r.channels) r.buf))
        × ((pop_i16 f32_to_i16 split n r).1 ≡ poppable n r)
        × ((pop_i16 f32_to_i16 split n r).2.buf ≡ drop (poppable n r * r.channels) r.buf)
  unfolding pop_i16
  pop_i16_lem split n r v = elim (Bool-cases (poppable n r == 0)) [
    | inl e ↦ let z : poppable n r ≡ 0 = (==_iff _ _).0 e in rw e (ground (arith, z))
    | inr e ↦
        rw (e, fits)
          (
            rw (take_slices_lem (poppable n r * r.channels) (take split r.buf) (drop split r.buf))
                (rw (take-append-drop split r.buf) refl),
            refl,
            refl,
          )
  ]
    where
      fits : saturating_mul u64_max (poppable n r) r.channels ≡ poppable n r * r.channels
      fits = saturating_mul-poppable n r v

module _ {A : Type 0} where
  -- A pop unconverted likewise.
  pub pop_f32_lem :
      (n : ℕ) (r : PcmRing A)
      → IsValid r
      → pop_f32 n r ≡ (
        take (poppable n r * r.channels) r.buf,
        poppable n r,
        record r { buf = drop (poppable n r * r.channels) r.buf },
      )
  unfolding pop_f32
  pop_f32_lem n r v = rw (saturating_mul-poppable n r v) refl
