-- ===== src/Bridge/Prebuffer/Ends.antt =====
-- The wait for the start lead ends (crates/play-on-air/src/bridge/start.rs).
use play_on_air.Prelude.{
  ℕ, zero, suc, ◌+◌, ◌≤◌, ◌≡◌, refl, inl, inr, false, ltb, List, [], ◌∷◌, ◌++◌, Option, none, some,
  Bool-cases, arith,
}
use play_on_air.Bridge.Prebuffer.{
  cast_start_lead_wait, LeadPoll, waits_for_lead, lead_loop, wait_for_start_lead,
}

abbrev pub count : List LeadPoll → ℕ
count [] = zero
count (p ∷ ps) = suc (count ps)

abbrev pub poll_at : ℕ → List LeadPoll → Option LeadPoll
poll_at n [] = none
poll_at zero (p ∷ ps) = some p
poll_at (suc n) (p ∷ ps) = poll_at n ps

-- The wait is over after some sleeps, at a poll that does not wait, and at the latest after as many
-- as there are polls before a given one.
abbrev pub EndsBy : ℕ → ℕ → List LeadPoll → ℕ → Option ℕ → Type 0
EndsBy sample_rate deadline polls latest o =
    (n : ℕ) × (q : LeadPoll) × (o ≡ some n)
    × (n ≤ latest)
    × (poll_at n polls ≡ some q)
    × (waits_for_lead sample_rate deadline q ≡ false)

not_waiting :
    (sample_rate deadline : ℕ) (p : LeadPoll)
    → deadline ≤ p.now
    → waits_for_lead sample_rate deadline p ≡ false
unfolding waits_for_lead
not_waiting sample_rate deadline p h =
    let e : ltb p.now deadline ≡ false = ground (arith, h) in ground (arith, e)

lead_loop-ends :
    (sample_rate deadline : ℕ) (before : List LeadPoll) (p : LeadPoll) (after : List LeadPoll)
    → waits_for_lead sample_rate deadline p ≡ false
    → EndsBy sample_rate deadline
        (before ++ p ∷ after)
        (count before)
        (lead_loop sample_rate deadline (before ++ p ∷ after))
unfolding lead_loop
lead_loop-ends sample_rate deadline [] p after e = (0, p, rw e refl, omega arith, refl, e)
lead_loop-ends sample_rate deadline (x ∷ before) p after e =
    elim (Bool-cases (waits_for_lead sample_rate deadline x)) [
      | inr f ↦ (0, x, rw f refl, omega arith, refl, f)
      | inl f ↦
          let (n, q, r, h, at, w) = lead_loop-ends sample_rate deadline before p after e in
          (suc n, q, rw (f, r) refl, omega (arith, h), at, w)
    ]

-- Whatever a wait for the start lead sees at its polls: if the clock reads at least
-- `CAST_START_LEAD_WAIT` past its start at some poll, then the wait is over, with no more sleeps than
-- there are polls before that one, and at a poll that has the lead queued, is past the deadline, or
-- is told not to wait.
pub wait_for_start_lead_ends :
    (sample_rate begun : ℕ) (before : List LeadPoll) (p : LeadPoll) (after : List LeadPoll)
    → begun + cast_start_lead_wait ≤ p.now
    → EndsBy sample_rate
        (begun + cast_start_lead_wait)
        (before ++ p ∷ after)
        (count before)
        (wait_for_start_lead sample_rate begun (before ++ p ∷ after))
unfolding wait_for_start_lead
wait_for_start_lead_ends sample_rate begun before p after h =
    lead_loop-ends sample_rate (begun + cast_start_lead_wait) before p after
      (not_waiting sample_rate (begun + cast_start_lead_wait) p h)
