-- ===== src/Audio/PcmRing/Bounds.antt =====
-- Bounds of the ring (audio/pcm.rs): what every method keeps, and the accounting of lost audio.
use play_on_air.Prelude.{
  ℕ, ◌+◌, ◌-◌, ◌*◌, ◌/◌, ◌%◌, ◌^◌, ◌≤◌, ◌≡◌, refl, min, max, List, [], ◌∷◌, ◌++◌, length, arith,
  length-append, length-drop,
}
use play_on_air.Audio.PcmRing.{PcmRing, new, push_f32, push_samples, pop_f32}
use play_on_air.Audio.PcmRing.Order.{IsValid, max_samples, buf-push_f32, pop_f32_lem, poppable}

module _ {A : Type 0} where
  pub new-IsValid :
      (channels frames : ℕ)
      → frames * max channels 1 ≤ max_samples
      → IsValid (new {A = A} channels frames)
  unfolding new
  new-IsValid channels frames h = record {
    has_channel = omega arith;
    bounded = omega arith;
    addressable = omega arith;
    counted = omega arith;
  }

  pub push_f32-fields :
      (r : PcmRing A) (samples : List A)
      → ((push_f32 samples r).channels ≡ r.channels)
        × ((push_f32 samples r).capacity_samples ≡ r.capacity_samples)
  unfolding push_f32 push_samples
  push_f32-fields r [] = (refl, refl)
  push_f32-fields r (s ∷ samples) = ground arith

  pub length-push_f32 :
      (r : PcmRing A) (samples : List A)
      → IsValid r
      → length samples ≤ max_samples
      → length (push_f32 samples r).buf ≡ min (length r.buf + length samples) r.capacity_samples
  length-push_f32 r samples v h =
      let all = length (r.buf ++ samples) in
      rw (buf-push_f32 r samples v h) (
        omega (
          arith,
          length-append r.buf samples,
          length-drop (all - r.capacity_samples) (r.buf ++ samples),
        ))

  drops-push_samples :
      (r : PcmRing A) (samples : List A)
      → IsValid r
      → length samples ≤ max_samples
      → (push_samples samples r).frames_dropped_overflow
        ≡ (r.frames_dropped_overflow
            + (length r.buf
                + length samples
                - min (length r.buf + length samples) r.capacity_samples)
              / r.channels)
          % 2 ^ 64
  unfolding push_samples
  drops-push_samples r samples v h =
      let lost = length r.buf + length samples - r.capacity_samples in
      let e : length r.buf + length samples - min (length r.buf + length samples) r.capacity_samples
          ≡ lost =
        omega arith in
      rw e (ground arith)

  drops-push_f32 :
      (r : PcmRing A) (samples : List A)
      → IsValid r
      → length samples ≤ max_samples
      → (push_f32 samples r).frames_dropped_overflow
        ≡ (r.frames_dropped_overflow
            + (length r.buf
                + length samples
                - min (length r.buf + length samples) r.capacity_samples)
              / r.channels)
          % 2 ^ 64
  unfolding push_f32
  drops-push_f32 r [] v h =
      let e : length r.buf + 0 - min (length r.buf + 0) r.capacity_samples ≡ 0 =
        omega (arith, v.bounded) in
      rw e (ground (arith, v.counted))
  drops-push_f32 r (s ∷ samples) v h = drops-push_samples r (s ∷ samples) v h

  -- Nothing is lost silently from a valid ring: what a push of at most `max_samples`
  -- drops is what it cannot hold, and the counter grows by the
  -- whole frames among it.
  pub push_f32_accounts :
      (r : PcmRing A) (samples : List A)
      → IsValid r
      → length samples ≤ max_samples
      → let q = push_f32 samples r in
        let lost = length r.buf + length samples - length q.buf in
        (length q.buf ≡ min (length r.buf + length samples) r.capacity_samples)
        × (q.frames_dropped_overflow ≡ (r.frames_dropped_overflow + lost / r.channels) % 2 ^ 64)
  push_f32_accounts r samples v h =
      let e = length-push_f32 r samples v h in (e, rw e (drops-push_f32 r samples v h))

  -- Every push keeps the ring within its capacity.
  pub push_f32-IsValid :
      (r : PcmRing A) (samples : List A)
      → IsValid r
      → length samples ≤ max_samples
      → IsValid (push_f32 samples r)
  push_f32-IsValid r samples v h =
      let (ch, cap) = push_f32-fields r samples in
      record {
        has_channel = rw ch v.has_channel;
        bounded = rw cap (omega (arith, length-push_f32 r samples v h));
        addressable = rw cap v.addressable;
        counted = rw (drops-push_f32 r samples v h) (omega arith);
      }

  pub pop_f32-IsValid : (n : ℕ) (r : PcmRing A) → IsValid r → IsValid (pop_f32 n r).2
  pop_f32-IsValid n r v = rw (pop_f32_lem n r v) (record {
    has_channel = v.has_channel;
    bounded = omega (arith, v.bounded, length-drop (poppable n r * r.channels) r.buf);
    addressable = v.addressable;
    counted = v.counted;
  })
