-- ===== src/Migrate/Poll.antt =====
-- migrate/disk.ts: the method verify, which polls an address.
pub mod Ends
use swamp_extensions.Common.{
  ℕ, zero, suc, ◌+◌, ◌*◌, Bool, true, false, not, List, [], ◌∷◌, ◌++◌, Option, none, some,
  if◌then◌else◌, ltb,
}
use swamp_extensions.Common.Text.{Text, lit}
use swamp_extensions.Common.Decimal.{decimal}
use swamp_extensions.Common.Action.{Result, returned, failed}
use swamp_extensions.Migrate.Disk.{sanitize}

pub data PollMode : Type 0 where
  tcp ping : PollMode

pub record VerifyArgs : Type 0 where
  pub ip : Text
  pub port : ℕ
  pub mode : PollMode
  pub expect_reachable : Bool
  pub timeout_sec : ℕ
  pub poll_interval_sec : ℕ

pub record Verify : Type 0 where
  pub ip : Text
  pub port : Option ℕ
  pub mode : PollMode
  pub reachable : Bool
  pub expect_reachable : Bool
  pub attempts : ℕ
  pub recorded_at : Text

-- What the polls meet: the time when the method starts, the time of each test of the loop, the
-- answer of each probe, and the text of the time at the end.
pub record Polled : Type 0 where
  pub start : ℕ
  pub time : (round : ℕ) → ℕ
  pub probe : (round : ℕ) → Bool
  pub recorded_at : Text

unfoldable pub same_bool : Bool → Bool → Bool
same_bool true b = b
same_bool false b = not b

module _ (w : Polled) (a : VerifyArgs) where
  abbrev pub deadline : ℕ
  deadline = w.start + a.timeout_sec * 1000

  -- The loop from a round on: the rounds that it made in all and the last answer, or none where the
  -- fuel is used up. The sleep is in the time of the next test.
  unfoldable pub poll : (fuel round : ℕ) (reachable : Bool) → Option (ℕ × Bool)
  unfolding same_bool
  poll zero round reachable = none
  poll (suc f) round reachable =
      let again = poll f (suc round) (w.probe round) in
      if ltb (w.time round) deadline
      then if same_bool (w.probe round) a.expect_reachable
        then some (suc round, w.probe round)
        else again
      else some (round, reachable)

  -- The loop from the start; one round more than the seconds of the timeout is enough.
  unfoldable pub polled : Option (ℕ × Bool)
  polled = poll (suc a.timeout_sec) 0 false

  pub verify_of : ℕ → Bool → Verify
  verify_of attempts reachable = record {
    ip = a.ip;
    port = elim a.mode [ tcp ↦ some a.port | ping ↦ none ];
    mode = a.mode;
    reachable = reachable;
    expect_reachable = a.expect_reachable;
    attempts = attempts;
    recorded_at = w.recorded_at;
  }

  bool_text : Bool → Text
  bool_text true = lit "true"
  bool_text false = lit "false"

  pub not_reached : ℕ → Bool → Text
  not_reached attempts reachable =
      lit "verify: "
      ++ (a.ip
          ++ (lit " expected reachable="
              ++ (bool_text a.expect_reachable
                  ++ (lit " but got "
                      ++ (bool_text reachable
                          ++ (lit " after " ++ (decimal attempts ++ lit " attempt(s)")))))))

  -- The resource is written first, and then an unexpected answer is an error.
  pub verify_result : ℕ × Bool → (Text × Verify) × Result (Unit {0})
  verify_result (attempts, reachable) = (
    (lit "verify-" ++ sanitize a.ip, verify_of attempts reachable),
    if same_bool reachable a.expect_reachable
        then returned tt
        else failed (not_reached attempts reachable),
  )

  -- None only where the fuel of `polled` is not enough.
  pub verify : Option ((Text × Verify) × Result (Unit {0}))
  verify = elim polled [ none ↦ none | some p ↦ some (verify_result p) ]
