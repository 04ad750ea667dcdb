-- ===== src/Bridge/Prebuffer.antt =====
-- crates/play-on-air/src/bridge/start.rs: the waits for audio before a LOAD.
--
-- Times are nanoseconds; a wait is given what it sees at each poll.
pub mod Ends
use play_on_air.Prelude.{
  ℕ, zero, suc, ◌+◌, ◌*◌, max, Bool, not, ◌&&◌, List, [], ◌∷◌, ltb, leb, if◌then◌else◌, Option,
  none, some,
}
use play_on_air.Prelude.Words.{u64_max, saturating_mul}
use play_on_air.Audio.Flac.{flac_block_size}

abbrev pub prebuffer_frames : ℕ
prebuffer_frames = flac_block_size

abbrev pub cast_start_lead : ℕ
cast_start_lead = 6

abbrev pub cast_start_lead_wait : ℕ
cast_start_lead_wait = 6 * 1_000_000_000

unfoldable pub lead_frames : ℕ → ℕ
lead_frames sample_rate = saturating_mul u64_max cast_start_lead (max sample_rate 1)

-- What the loop of a wait sees at a poll.
pub record LeadPoll : Type 0 where
  pub now : ℕ
  pub available_frames : ℕ
  pub keep_waiting : Bool

unfoldable pub waits_for_lead : ℕ → ℕ → LeadPoll → Bool
unfolding lead_frames
waits_for_lead sample_rate deadline p =
    ltb p.available_frames (lead_frames sample_rate) && ltb p.now deadline && p.keep_waiting

abbrev pub slept : Option ℕ → Option ℕ
slept none = none
slept (some n) = some (suc n)

-- The loop, on what its polls see from now on; it tells how many polls it slept after. `none`: the
-- polls ran out.
unfoldable pub lead_loop : ℕ → ℕ → List LeadPoll → Option ℕ
unfolding waits_for_lead
lead_loop sample_rate deadline [] = none
lead_loop sample_rate deadline (p ∷ ps) =
    let rest = slept (lead_loop sample_rate deadline ps) in
    if waits_for_lead sample_rate deadline p then rest else some 0

unfoldable pub wait_for_start_lead : ℕ → ℕ → List LeadPoll → Option ℕ
unfolding lead_loop
wait_for_start_lead sample_rate started polls =
    lead_loop sample_rate (started + cast_start_lead_wait) polls

abbrev pub prebuffer_polls : ℕ
prebuffer_polls = 160

pub data PrebufferResult : Type 0 where
  ready stale timed_out : PrebufferResult

-- What a poll of the prebuffer sees: whether the ring is still current, and its frames.
unfoldable pub prebuffer_loop : ℕ → (ℕ → Bool × ℕ) → PrebufferResult
prebuffer_loop zero sees = if leb prebuffer_frames (sees 0).1 then ready else timed_out
prebuffer_loop (suc polls) sees =
    let rest = prebuffer_loop polls (λ i. sees (suc i)) in
    let (still_current, available) = sees 0 in
    if not still_current then stale else (if leb prebuffer_frames available then ready else rest)

unfoldable pub wait_for_prebuffer : (ℕ → Bool × ℕ) → PrebufferResult
unfolding prebuffer_loop
wait_for_prebuffer sees = prebuffer_loop prebuffer_polls sees
