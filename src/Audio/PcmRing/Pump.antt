-- ===== src/Audio/PcmRing/Pump.antt =====
-- The pump between two rings (bridge/state.rs): it terminates, and moves whole frames in order.
use play_on_air.Prelude.{
  ℕ, zero, suc, ◌+◌, ◌-◌, ◌*◌, ◌/◌, ◌≤◌, ◌<◌, ◌≡◌, refl, sym, ap, ◌∙◌, false, List, [], ◌∷◌, ◌++◌,
  length, take, drop, ltb, if◌then◌else◌, arith, append_assoc, length-append, length-take,
  length-drop, drop-append, drop-drop, Bool-cases, ltb→lt, inl, inr, some,
}
use native.Mathlib.Nat.{le-div_iff_mul-le, add-mul-div_right}
use play_on_air.Audio.PcmRing.{PcmRing, push_f32, pump_chunks, pump_chunk_frames}
use play_on_air.Audio.PcmRing.Order.{
  IsValid, max_samples, newest, poppable, mul-div-le, buf-push_f32, pop_f32_lem,
}
use play_on_air.Audio.PcmRing.Bounds.{push_f32-IsValid, push_f32-fields}

module _ {A : Type 0} where
  take-nil : (n : ℕ) → take {A = A} n [] ≡ []
  take-nil zero = refl
  take-nil (suc n) = refl

  take-add : (m n : ℕ) (xs : List A) → take m xs ++ take n (drop m xs) ≡ take (m + n) xs
  take-add zero n xs = ground arith
  take-add (suc m) n [] = take-nil n ∙ sym (take-nil (suc m + n))
  take-add (suc m) n (x ∷ xs) =
      let e : suc m + n ≡ suc (m + n) = omega arith in rw e (ap (◌∷◌ x) (take-add m n xs))

  newest-newest :
      (cap : ℕ) (xs ys : List A) → newest cap (newest cap xs ++ ys) ≡ newest cap (xs ++ ys)
  newest-newest cap xs ys =
      let k = length xs - cap in
      let joined : drop k xs ++ ys ≡ drop k (xs ++ ys) =
        rw (drop-append k xs ys) (let z : k - length xs ≡ 0 = omega arith in rw z refl) in
      let j = length (drop k (xs ++ ys)) - cap in
      let e : k + j ≡ length (xs ++ ys) - cap =
        omega (arith, length-drop k (xs ++ ys), length-append xs ys) in
      rw (joined, drop-drop j k (xs ++ ys), e) refl

  -- Two pushes leave the same samples as one push of both.
  pub push-push :
      (r : PcmRing A) (xs ys : List A)
      → IsValid r
      → length (xs ++ ys) ≤ max_samples
      → (push_f32 ys (push_f32 xs r)).buf ≡ (push_f32 (xs ++ ys) r).buf
  push-push r xs ys v h =
      let hx : length xs ≤ max_samples = omega (arith, length-append xs ys) in
      let hy : length ys ≤ max_samples = omega (arith, length-append xs ys) in
      let (_, cap) = push_f32-fields r xs in
      rw
        (
          buf-push_f32 _ ys (push_f32-IsValid r xs v hx) hy,
          cap,
          buf-push_f32 r xs v hx,
          buf-push_f32 r (xs ++ ys) v h,
        )
        (newest-newest r.capacity_samples (r.buf ++ xs) ys
          ∙ ap (newest r.capacity_samples) (append_assoc r.buf xs ys))

-- The samples of the complete frames that a ring holds.
abbrev pub whole : {A : Type 0} → PcmRing A → ℕ
whole r = length r.buf / r.channels * r.channels

rest-div : (l c k : ℕ) → 1 ≤ c → k ≤ l / c → (l - k * c) / c ≡ l / c - k
rest-div l c k h q =
    let taken : k * c ≤ l = (le-div_iff_mul-le h).0 q in
    let split : l - k * c + k * c ≡ l = omega arith in
    omega (arith, rw split at (add-mul-div_right (l - k * c) k h))

mul-add-sub : (k q c : ℕ) → k ≤ q → k * c + (q - k) * c ≡ q * c
mul-add-sub k q c h =
    let e : k + (q - k) ≡ q = omega arith in omega (arith, ap (λ (t : ℕ). t * c) e)

module _ {A : Type 0} where
  push_f32-nil : (r : PcmRing A) → push_f32 [] r ≡ r
  unfolding push_f32
  push_f32-nil r = refl

  -- One round of the loop.
  pump_round :
      (fuel : ℕ) (source sink : PcmRing A)
      → IsValid source
      → let k = poppable pump_chunk_frames source in
        let n = k * source.channels in
        let source' = record source { buf = drop n source.buf } in
        let rest = pump_chunks fuel source' (push_f32 (take n source.buf) sink) in
        pump_chunks (suc fuel) source sink ≡ (if ltb 0 k then rest else some (source', sink))
  unfolding pump_chunks
  pump_round fuel source sink v = rw (pop_f32_lem pump_chunk_frames source v) refl

  rest-whole :
      (source : PcmRing A) (k : ℕ)
      → IsValid source
      → k ≤ length source.buf / source.channels
      → k * source.channels + whole (record source { buf = drop (k * source.channels) source.buf })
        ≡ whole source
  rest-whole source k v q =
      rw (length-drop (k * source.channels) source.buf, rest-div _ _ k v.has_channel q)
        (mul-add-sub k (length source.buf / source.channels) source.channels q)

  -- With more fuel than complete frames, and both rings valid, the pump's loop ends; it has moved exactly the complete
  -- frames, in order, as one push would, and left the rest.
  pub pump_chunks_lem :
      (fuel : ℕ) (source sink : PcmRing A)
      → IsValid source
      → IsValid sink
      → length source.buf / source.channels < fuel
      → (source' : PcmRing A) × (sink' : PcmRing A) × (pump_chunks fuel source sink
          ≡ some (source', sink'))
        × (source'.buf ≡ drop (whole source) source.buf)
        × (sink'.buf ≡ (push_f32 (take (whole source) source.buf) sink).buf)
  pump_chunks_lem zero source sink v w h = absurd (omega arith)
  pump_chunks_lem (suc fuel) source sink v w h = elim (Bool-cases (ltb 0 k)) [
    | inl more ↦
        let (source'', sink'', run, left, moved) =
          pump_chunks_lem fuel source' sink' v' w' (omega (arith, fewer, ltb→lt 0 k more)) in
        (
          source'',
          sink'',
          pump_round fuel source sink v ∙ rw (more, run),
          left ∙ drop-drop _ n source.buf ∙ ap (λ m. drop m source.buf) all,
          moved ∙ push-push sink _ _ w short ∙ ap (λ xs. (push_f32 xs sink).buf) joined,
        )
    | inr done ↦ (
      source',
      sink,
      pump_round fuel source sink v ∙ rw done,
      ap (λ m. drop m source.buf) (none_left done),
      rw (no_whole done, push_f32-nil sink) refl,
    )
  ]
    where
      k : ℕ
      k = poppable pump_chunk_frames source

      n : ℕ
      n = k * source.channels

      source' : PcmRing A
      source' = record source { buf = drop n source.buf }

      sink' : PcmRing A
      sink' = push_f32 (take n source.buf) sink

      fits : n ≤ length source.buf
      fits = mul-div-le pump_chunk_frames (length source.buf) source.channels

      v' : IsValid source'
      v' = record {
        has_channel = v.has_channel;
        bounded = omega (arith, v.bounded, length-drop n source.buf);
        addressable = v.addressable;
        counted = v.counted;
      }

      w' : IsValid sink'
      w' =
          push_f32-IsValid sink (take n source.buf) w
            (omega (arith, v.bounded, v.addressable, length-take n source.buf))

      fewer : length source'.buf / source'.channels ≡ length source.buf / source.channels - k
      fewer = rw (length-drop n source.buf) (rest-div _ _ k v.has_channel (omega arith))

      none_left : ltb 0 k ≡ false → n ≡ whole source
      none_left done = let z : length source.buf / source.channels ≡ 0 = ground arith in rw z refl

      no_whole : ltb 0 k ≡ false → whole source ≡ 0
      no_whole done =
          let z : length source.buf / source.channels ≡ 0 = ground arith in rw z (omega arith)

      all : n + whole source' ≡ whole source
      all = rest-whole source k v (omega arith)

      joined :
          take n source.buf ++ take (whole source') source'.buf ≡ take (whole source) source.buf
      joined = take-add n (whole source') source.buf ∙ ap (λ m. take m source.buf) all

      short : length (take n source.buf ++ take (whole source') source'.buf) ≤ max_samples
      short =
          rw joined (omega (arith, v.bounded, v.addressable, length-take (whole source) source.buf))
