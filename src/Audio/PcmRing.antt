-- ===== src/Audio/PcmRing.antt =====
-- The PCM ring of crates/play-on-air/src/audio/pcm.rs and the pump of bridge/state.rs that moves
-- audio between two rings.
--
-- `A` stands for the interleaved f32 samples, `B` for the i16 ones and `f32_to_i16` for the
-- conversion, which works on floats. The lock makes each method one step. The counters are relaxed
-- atomics and wrap at 2 ^ 64; lengths saturate like `usize`.
pub mod Order
pub mod Bounds
pub mod Pump
pub mod History
use play_on_air.Prelude.{
  ℕ, zero, suc, ◌+◌, ◌-◌, ◌*◌, ◌/◌, min, max, Bool, true, false, List, [], ◌∷◌, ◌++◌, map, length,
  take, drop, ltb, leb, ◌==◌, if◌then◌else◌, Option, none, some,
}
use play_on_air.Prelude.Words.{u64_max, saturating_add, saturating_mul, wrapping_add64}

pub record PcmRing (A : Type 0) : Type 0 where
  pub channels : ℕ
  pub buf : List A
  pub capacity_samples : ℕ
  pub frames_dropped_overflow : ℕ
  pub underrun_polls : ℕ

module _ {A : Type 0} where
  pub new : ℕ → ℕ → PcmRing A
  new channels capacity_frames = record {
    channels = max channels 1;
    buf = [];
    capacity_samples = saturating_mul u64_max capacity_frames (max channels 1);
    frames_dropped_overflow = 0;
    underrun_polls = 0;
  }

  -- The counter is touched only where whole frames were lost.
  count_drops : ℕ → PcmRing A → PcmRing A
  count_drops frames r =
      if ltb 0 frames
      then record r { frames_dropped_overflow = wrapping_add64 r.frames_dropped_overflow frames }
      else r

  -- The two branches of `push_f32` below its guard.
  push_samples : List A → PcmRing A → PcmRing A
  unfolding count_drops
  push_samples samples r =
      let total = saturating_add u64_max (length r.buf) (length samples) in
      let drop_samples = total - r.capacity_samples in
      let drop_from_buf = min drop_samples (length r.buf) in
      let skip = drop_samples - drop_from_buf in
      if ltb r.capacity_samples total
      then record (count_drops (drop_samples / r.channels) r) {
        buf = drop drop_from_buf r.buf ++ drop skip samples;
      }
      else record r { buf = r.buf ++ samples }

  pub push_f32 : List A → PcmRing A → PcmRing A
  unfolding push_samples
  push_f32 [] r = r
  push_f32 (s ∷ samples) r = push_samples (s ∷ samples) r

  unfoldable pub available_frames : PcmRing A → ℕ
  available_frames r = length r.buf / r.channels

  pub occupancy_frames : PcmRing A → ℕ
  unfolding available_frames
  occupancy_frames r = available_frames r

  pub clear : PcmRing A → PcmRing A
  clear r = record r { buf = [] }

  -- The samples written to `out`, the count of frames, and the ring.
  pub pop_f32 : ℕ → PcmRing A → List A × ℕ × PcmRing A
  pop_f32 frame_count r =
      let take_frames = min frame_count (length r.buf / r.channels) in
      let take_samples = saturating_mul u64_max take_frames r.channels in
      (take take_samples r.buf, take_frames, record r { buf = drop take_samples r.buf })

  -- `guard.as_slices()`: the deque's storage wraps after `split` samples.
  as_slices : ℕ → PcmRing A → List A × List A
  as_slices split r = (take split r.buf, drop split r.buf)

module _ {A B : Type 0} (f32_to_i16 : A → B) where
  -- The two loops of `pop_i16` over the slices.
  take_slices : ℕ → List A × List A → List B
  take_slices take_samples (first, second) =
      let first_take = min take_samples (length first) in
      let second_take = take_samples - first_take in
      map f32_to_i16 (take first_take first)
      ++ (if ltb 0 second_take then map f32_to_i16 (take second_take second) else [])

  pub pop_i16 : ℕ → ℕ → PcmRing A → List B × ℕ × PcmRing A
  unfolding take_slices as_slices
  pop_i16 split frame_count r =
      let take_frames = min frame_count (length r.buf / r.channels) in
      let take_samples = saturating_mul u64_max take_frames r.channels in
      if take_frames == 0
      then ([], 0, record r { underrun_polls = wrapping_add64 r.underrun_polls 1 })
      else (
        take_slices take_samples (as_slices split r),
        take_frames,
        record r { buf = drop take_samples r.buf },
      )

-- `RingPump`: one tick of its task. Without a target the source is discarded; otherwise whole
-- chunks move until no complete frame is left. `fuel` bounds the rounds of the inner loop.
abbrev pub pump_chunk_frames : ℕ
pump_chunk_frames = 4096

module _ {A : Type 0} where
  pub pump_chunks : ℕ → PcmRing A → PcmRing A → Option (PcmRing A × PcmRing A)
  pump_chunks zero source sink = none
  pump_chunks (suc fuel) source sink =
      let popped = pop_f32 pump_chunk_frames source in
      let rest = pump_chunks fuel popped.2 (push_f32 popped.0 sink) in
      if ltb 0 popped.1 then rest else some (popped.2, sink)

  pub pump_tick : ℕ → PcmRing A → Option (PcmRing A) → Option (PcmRing A × Option (PcmRing A))
  pump_tick fuel source none = some (clear source, none)
  pump_tick fuel source (some sink) = elim (pump_chunks fuel source sink) [
    | none ↦ none
    | some (source', sink') ↦ some (source', some sink')
  ]
