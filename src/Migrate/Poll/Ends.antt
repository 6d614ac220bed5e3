-- ===== src/Migrate/Poll/Ends.antt =====
-- The loop of verify ends, and when it gives what is expected.
use swamp_extensions.Common.{
  ◌≡◌, refl, ap, ◌∙◌, inl, inr, ℕ, zero, suc, ◌+◌, ◌*◌, ◌≤◌, ◌<◌, Bool, true, false, ◌++◌, some,
  none, arith, ltb, leb, Bool-cases,
}
use swamp_extensions.Common.Text.{Text, lit}
use swamp_extensions.Common.Action.{returned}
use swamp_extensions.Migrate.Disk.{sanitize}
use swamp_extensions.Migrate.Poll.{
  VerifyArgs, Verify, Polled, same_bool, deadline, poll, polled, verify_of, verify_result, verify,
}

same_bool_refl : (b : Bool) → same_bool b b ≡ true
unfolding same_bool
same_bool_refl true = refl
same_bool_refl false = refl

-- The clock as documented: it does not go back, and a sleep takes at least its length.
pub record IsClock (w : Polled) (a : VerifyArgs) : Type 0 where
  pub first : w.start ≤ w.time 0
  pub slept : (round : ℕ) → w.time round + a.poll_interval_sec * 1000 ≤ w.time (suc round)

module _ (w : Polled) (a : VerifyArgs) (clock : IsClock w a)
    (positive : 0 < a.poll_interval_sec) where
  -- Each round takes a second or more.
  round_time : (i : ℕ) → w.start + i * 1000 ≤ w.time i
  round_time zero = omega (arith, clock.first)
  round_time (suc i) = omega (arith, clock.slept i, round_time i)

  poll_ends :
      (f i : ℕ) (reachable : Bool)
      → a.timeout_sec < f + i
      → i ≤ a.timeout_sec
      → (p : ℕ × Bool) × (poll w a f i reachable ≡ some p) × (p.0 ≤ a.timeout_sec)
  unfolding poll
  poll_ends zero i reachable h k = absurd (omega arith)
  poll_ends (suc f) i reachable h k = elim (Bool-cases (ltb (w.time i) (deadline w a))) [
    | inr e ↦ rw e ((i, reachable), refl, k)
    | inl e ↦ elim (Bool-cases (same_bool (w.probe i) a.expect_reachable)) [
      | inl s ↦ rw (e, s) ((suc i, w.probe i), refl, ground (arith, round_time i))
      | inr s ↦
          rw (e, s) (poll_ends f (suc i) (w.probe i) (omega arith) (ground (arith, round_time i)))
    ]
  ]

  -- Where each sleep takes its length, which is positive, the loop ends, and makes at most as many
  -- rounds as the timeout has seconds.
  pub polled_ends : (p : ℕ × Bool) × (polled w a ≡ some p) × (p.0 ≤ a.timeout_sec)
  unfolding polled
  polled_ends = poll_ends (suc a.timeout_sec) 0 false (omega arith) (omega arith)

  time_mono : (i k : ℕ) → i ≤ k → w.time i ≤ w.time k
  time_mono i zero h = rw (i_zero) (omega arith)
    where
      i_zero : i ≡ 0
      i_zero = omega arith
  time_mono i (suc k) h = elim (Bool-cases (leb i k)) [
    | inl e ↦ omega (arith, clock.slept k, time_mono i k (ground arith))
    | inr e ↦ let q : i ≡ suc k = ground arith in rw q (omega arith)
  ]

  poll_finds :
      (k f i : ℕ) (reachable : Bool)
      → k < f + i
      → i ≤ k
      → w.time k < deadline w a
      → same_bool (w.probe k) a.expect_reachable ≡ true
      → (n : ℕ) × (b : Bool) × (poll w a f i reachable ≡ some (n, b))
        × (same_bool b a.expect_reachable ≡ true)
        × (n ≤ suc k)
  unfolding poll
  poll_finds k zero i reachable h l e s = absurd (omega arith)
  poll_finds k (suc f) i reachable h l e s =
      elim (Bool-cases (same_bool (w.probe i) a.expect_reachable)) [
        | inl t ↦ rw (open_i, t) (suc i, w.probe i, refl, t, omega arith)
        | inr t ↦ elim (Bool-cases (ltb i k)) [
          | inl u ↦
              rw (open_i, t) (poll_finds k f (suc i) (w.probe i) (omega arith) (ground arith) e s)
          | inr u ↦ let q : i ≡ k = ground arith in absurd (cc)
        ]
      ]
    where
      open_i : ltb (w.time i) (deadline w a) ≡ true
      open_i = ground (arith, time_mono i k l)

  verify-polled : (p : ℕ × Bool) → polled w a ≡ some p → verify w a ≡ some (verify_result w a p)
  unfolding verify
  verify-polled p f = ap (λ o. elim o [ none ↦ none | some q ↦ some (verify_result w a q) ]) f

  result_reached :
      (n : ℕ) (b : Bool)
      → same_bool b a.expect_reachable ≡ true
      → verify_result w a (n, b)
        ≡ ((lit "verify-" ++ sanitize a.ip, verify_of w a n b), returned tt)
  unfolding verify_result
  result_reached n b t = rw t refl

  -- Where the address answers as expected to the probe of a round that starts before the deadline,
  -- verify gives no error, and has made no round after that one.
  pub verify_reached :
      (k : ℕ)
      → w.time k < deadline w a
      → w.probe k ≡ a.expect_reachable
      → (name : Text) × (v : Verify) × (verify w a ≡ some ((name, v), returned tt))
        × (v.attempts ≤ suc k)
  unfolding polled verify_of
  verify_reached k e s =
      let (n, b, f, t, l) =
        poll_finds k (suc a.timeout_sec) 0 false (omega (arith, round_time k)) (omega arith) e
          (ap (λ c. same_bool c a.expect_reachable) s ∙ same_bool_refl a.expect_reachable) in
      (
        lit "verify-" ++ sanitize a.ip,
        verify_of w a n b,
        verify-polled (n, b) f ∙ ap some (result_reached n b t),
        l,
      )
