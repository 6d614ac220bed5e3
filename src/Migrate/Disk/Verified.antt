-- ===== src/Migrate/Disk/Verified.antt =====
-- What a copy that goes through has shown.
use swamp_extensions.Common.{
  ◌≡◌, refl, ap, subst, ◌∙◌, inl, inr, ◌⊎◌, ℕ, ◌+◌, ◌*◌, ◌≤◌, ◌<◌, Bool, true, false, not, ◌||◌,
  List, [], ◌∷◌, ◌++◌, Option, none, some, arith, nat_beq, leb, Bool-cases,
}
use swamp_extensions.Common.Text.{Text}
use swamp_extensions.Common.Action.{
  returned, Action, pure, ◌>>=◌, ◌>>◌, ask, throw_if, >>=-returned,
}
use swamp_extensions.Common.Action.Returns.{
  Ok, Returns, pure-Returns, >>=-Returns, throw_if-Returns,
}
use swamp_extensions.Migrate.Bytes.{parse_dd_bytes, bytes_verified, block_size_bytes}
use swamp_extensions.Migrate.Build.{relay_src_command, relay_dst_command}
use swamp_extensions.Migrate.Ssh.{
  Spawn, joined, Processes, Ended, ssh_args, timeout_ms, after_ms, relay_stream, relay_result,
  RelayResult,
}
use swamp_extensions.Migrate.Disk.{
  GlobalArgs, StreamArgs, Mode, relay, fixed, src_target, dst_target, copy_relay, relay_failed,
  Transfer, Clock, is_verified, not_verified, choose_mode, copy, transfer_name, transfer_of, stream,
  clock_time,
}

-- A number of bytes that is what is expected or more, or short of it by less than a block.
abbrev pub IsWithin : ℕ → StreamArgs → Option ℕ → Type 0
IsWithin expected a none = ⊥
IsWithin expected a (some n) =
    (expected ≤ n) ⊎ (expected < n + block_size_bytes a.params.block_size)

is_verified-IsWithin :
    (a : StreamArgs) (expected : ℕ) (written : Option ℕ)
    → a.expected_bytes ≡ some expected
    → is_verified a written ≡ true
    → IsWithin expected a written
unfolding is_verified bytes_verified
is_verified-IsWithin a expected none e h = absurd (cc)
is_verified-IsWithin a expected (some n) e h = within (
    subst
      (λ o.
        elim o as (λ _. Bool) [
          | none ↦ true
          | some x ↦ bytes_verified n x (block_size_bytes a.params.block_size)
        ]
        ≡ true)
      e h)
  where
    within :
        bytes_verified n expected (block_size_bytes a.params.block_size) ≡ true
        → IsWithin expected a (some n)
    within t = elim (Bool-cases (leb expected n)) [
      | inl u ↦ inl (ground arith)
      | inr u ↦ inr (ground arith)
    ]

module _ (w : Processes) (clock : Clock) (g : GlobalArgs) (a : StreamArgs) where
  stream-Returns :
      (Q : Text × Transfer → Type 0)
      → ((m : Mode) (written : Option ℕ) (s f : ℕ)
          → is_verified a written ≡ true
          → Q (transfer_name a, transfer_of w clock a m written s f))
      → Returns Q (stream w clock g a)
  unfolding stream
  stream-Returns Q h = >>=-Returns Q (choose_mode w clock g a a.mode) _ (λ m.
      >>=-Returns Q (clock_time clock.time) _ (λ s. >>=-Returns Q (copy w clock g a m) _ (λ written.
        >>=-Returns Q (clock_time clock.time) _ (λ f.
          throw_if-Returns Q (not (is_verified a written)) (not_verified a written)
            (λ _. pure (transfer_name a, transfer_of w clock a m written s f))
            (λ e.
              pure-Returns Spawn Q (transfer_name a, transfer_of w clock a m written s f)
                (h m written s f (ground arith)))))))

  -- Where a number of bytes is expected, a stream that goes through has read a number of bytes that
  -- is at least this, or short of it by less than a block.
  pub stream-IsWithin :
      (expected : ℕ) (sent : List Spawn)
      → a.expected_bytes ≡ some expected
      → Ok (λ p. IsWithin expected a p.1.bytes_written) (stream w clock g a sent).1
  unfolding Returns transfer_of
  stream-IsWithin expected sent e =
      stream-Returns (λ p. IsWithin expected a p.1.bytes_written)
        (λ m written s f h. is_verified-IsWithin a expected written e h) sent

module _ (w : Processes) (clock : Clock) (g : GlobalArgs) (a : StreamArgs) (sent : List Spawn)
    (src dst : Ended) where
  abbrev pub legs : Spawn
  legs =
      joined (ssh_args (src_target g a) (relay_src_command a.params))
        (ssh_args (dst_target g a) (relay_dst_command a.params))
        (timeout_ms (after_ms (g.task_timeout_sec * 1000)))

  abbrev relayed : RelayResult
  relayed = relay_result w (timeout_ms (after_ms (g.task_timeout_sec * 1000))) (false, src, dst)

  relay_stream-relayed :
      w.run_both sent legs ≡ returned (false, src, dst)
      → relay_stream w
          (src_target g a)
          (relay_src_command a.params)
          (dst_target g a)
          (relay_dst_command a.params)
          (after_ms (g.task_timeout_sec * 1000))
          sent
        ≡ (sent ++ legs ∷ [], returned relayed)
  unfolding relay_stream
  relay_stream-relayed e =
      >>=-returned (ask w.run_both legs)
        (λ ended. pure (relay_result w (timeout_ms (after_ms (g.task_timeout_sec * 1000))) ended))
        sent (sent ++ legs ∷ []) (false, src, dst) (ap (λ r. (sent ++ legs ∷ [], r)) e)

  abbrev checked : RelayResult → Action Spawn (Option ℕ)
  checked r =
      throw_if (not (nat_beq r.dst_code 0) || not (nat_beq r.src_code 0)) (relay_failed r) >>= λ _.
      pure (parse_dd_bytes r.dst_stderr)

  checked-relayed :
      src.code ≡ 0
      → dst.code ≡ 0
      → checked relayed (sent ++ legs ∷ [])
        ≡ (sent ++ legs ∷ [], returned (parse_dd_bytes dst.stderr))
  unfolding relay_result
  checked-relayed f h = rw (f, h) refl

  copy_relayed :
      w.run_both sent legs ≡ returned (false, src, dst)
      → src.code ≡ 0
      → dst.code ≡ 0
      → copy w clock g a relay sent ≡ (sent ++ legs ∷ [], returned (parse_dd_bytes dst.stderr))
  unfolding copy copy_relay
  copy_relayed e f h =
      >>=-returned
        (relay_stream w (src_target g a) (relay_src_command a.params) (dst_target g a)
          (relay_dst_command a.params) (after_ms (g.task_timeout_sec * 1000)))
        checked sent (sent ++ legs ∷ []) relayed (relay_stream-relayed e)
      ∙ checked-relayed f h

  abbrev finish : Mode → ℕ → Option ℕ → Action Spawn (Text × Transfer)
  finish m started written = do
    finished ← clock_time clock.time
    throw_if (not (is_verified a written)) (not_verified a written)
    pure (transfer_name a, transfer_of w clock a m written started finished)

  finish_verified :
      (written : Option ℕ) (all : List Spawn) (started : ℕ)
      → is_verified a written ≡ true
      → finish relay started written all ≡ (
        all,
        returned (transfer_name a, transfer_of w clock a relay written started (clock.time all)),
      )
  finish_verified written all started v = rw v refl

  -- Where the two legs of a relay end with code 0 and without a timeout, and the figure of the
  -- writing side is what is expected, a stream in the mode relay goes through with this figure.
  pub stream_relayed :
      a.mode ≡ fixed relay
      → w.run_both sent legs ≡ returned (false, src, dst)
      → src.code ≡ 0
      → dst.code ≡ 0
      → is_verified a (parse_dd_bytes dst.stderr) ≡ true
      → stream w clock g a sent ≡ (
        sent ++ legs ∷ [],
        returned (
          transfer_name a,
          transfer_of w clock a relay
              (parse_dd_bytes dst.stderr)
              (clock.time sent)
              (clock.time (sent ++ legs ∷ [])),
        ),
      )
  unfolding stream choose_mode
  stream_relayed m e f h v =
      >>=-returned (choose_mode w clock g a a.mode)
        (λ n. clock_time clock.time >>= λ started. copy w clock g a n >>= finish n started) sent
        sent relay (ap (λ q. choose_mode w clock g a q sent) m)
      ∙ >>=-returned (copy w clock g a relay) (finish relay (clock.time sent)) sent
          (sent ++ legs ∷ []) (parse_dd_bytes dst.stderr) (copy_relayed e f h)
      ∙ finish_verified (parse_dd_bytes dst.stderr) (sent ++ legs ∷ []) (clock.time sent) v
