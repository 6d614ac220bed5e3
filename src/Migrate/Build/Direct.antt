-- ===== src/Migrate/Build/Direct.antt =====
-- The words that a shell reads in the direct command of migrate/build.ts, and on the target.
use swamp_extensions.Common.{
  ◌≡◌, refl, sym, ap, ◌∙◌, ℕ, List, [], ◌∷◌, ◌++◌, Option, none, some, append_assoc, append-nil,
}
use swamp_extensions.Common.Text.{Text, lit, join}
use swamp_extensions.Common.Decimal.{decimal}
use swamp_extensions.Migrate.Shell.{
  Token, word, bar, bare, is_plain, classify, emit, tokens_from, tokens,
}
use swamp_extensions.Migrate.Build.{
  shq, InnerSshOpts, key_flags, inner_ssh_flags, zstd_compress, StreamParams, relay_dst_command,
  ssh_target, direct_src_command,
}
use swamp_extensions.Migrate.Build.Quoted.{
  IsPlain, tokens_from-shq, tokens_from-plain, tokens_from-word, decimal-IsPlain,
}
use swamp_extensions.Migrate.Build.Relay.{
  read_words, compress_words, tokens_from-dd_read_command, tokens_from-zstd_compress,
}

abbrev pub key_words : Option Text → List Token
key_words none = []
key_words (some []) = []
key_words (some (c ∷ path)) = word (lit "-i") ∷ word (c ∷ path) ∷ []

abbrev option_words : ℕ → List Token
option_words timeout =
    word (lit "ssh")
    ∷ word (lit "-o")
    ∷ word (lit "BatchMode=yes")
    ∷ word (lit "-o")
    ∷ word (lit "ConnectTimeout=" ++ decimal timeout)
    ∷ word (lit "-o")
    ∷ word (lit "StrictHostKeyChecking=accept-new")
    ∷ []

abbrev pub ssh_words : InnerSshOpts → List Token
ssh_words o =
    option_words o.connect_timeout_sec
    ++ (key_words o.migration_key_path ++ word (o.dst_user ++ (lit "@" ++ o.dst_host)) ∷ [])

tokens_from-target :
    (user host rest : Text)
    → IsPlain user
    → IsPlain host
    → tokens_from bare none (user ++ (b'@' ∷ (host ++ rest)))
      ≡ tokens_from bare (some (user ++ (b'@' ∷ host))) rest
unfolding is_plain
tokens_from-target user host rest u h =
    tokens_from-word user b'@' (host ++ rest) u refl
    ∙ tokens_from-plain (user ++ b'@' ∷ []) host rest h
    ∙ ap (λ t. tokens_from bare (some t) rest) (append_assoc user (b'@' ∷ []) host)

-- The command `ssh` with its options and its target.
abbrev ssh_text : InnerSshOpts → Text
ssh_text o = join (lit " ") (lit "ssh" ∷ (inner_ssh_flags o ++ ssh_target o ∷ []))

module _ (user host rest : Text) (n : ℕ) (ts : List Token) (u : IsPlain user) (h : IsPlain host)
    (e : tokens_from bare (some (user ++ (b'@' ∷ host))) rest ≡ some ts) where
  opts : Option Text → InnerSshOpts
  opts key = record {
    dst_host = host;
    dst_user = user;
    connect_timeout_sec = n;
    migration_key_path = key;
  }

  target_end : tokens_from bare none ((user ++ (b'@' ∷ host)) ++ rest) ≡ some ts
  target_end =
      ap (tokens_from bare none) (append_assoc user (b'@' ∷ host) rest)
      ∙ tokens_from-target user host rest u h
      ∙ e

  tokens_from-opts :
      (key : Option Text)
      → tokens_from bare none (ssh_text (opts key) ++ rest)
        ≡ some (option_words n ++ (key_words key ++ ts))
  unfolding opts join inner_ssh_flags key_flags ssh_target tokens_from classify is_plain lit
  tokens_from-opts none =
      let after = lit " -o StrictHostKeyChecking=accept-new " ++ (user ++ (b'@' ∷ host)) in
      rw
        (
          append_assoc (decimal n) after rest,
          tokens_from-plain (lit "ConnectTimeout=") (decimal n) (after ++ rest) (decimal-IsPlain n),
          target_end,
        )
        refl
  tokens_from-opts (some []) =
      let after = lit " -o StrictHostKeyChecking=accept-new " ++ (user ++ (b'@' ∷ host)) in
      rw
        (
          append_assoc (decimal n) after rest,
          tokens_from-plain (lit "ConnectTimeout=") (decimal n) (after ++ rest) (decimal-IsPlain n),
          target_end,
        )
        refl
  tokens_from-opts (some (c ∷ path)) =
      let end = b' ' ∷ (user ++ (b'@' ∷ host)) in
      let after = lit " -o StrictHostKeyChecking=accept-new -i " ++ (shq (c ∷ path) ++ end) in
      rw
        (
          append_assoc (decimal n) after rest,
          tokens_from-plain (lit "ConnectTimeout=") (decimal n) (after ++ rest) (decimal-IsPlain n),
          append_assoc (shq (c ∷ path)) end rest,
          tokens_from-shq none (c ∷ path) (end ++ rest),
          target_end,
        )
        refl

tokens_from-last :
    (w command : Text)
    → tokens_from bare (some w) (b' ' ∷ shq command) ≡ some (word w ∷ word command ∷ [])
unfolding tokens_from classify is_plain
tokens_from-last w command =
    rw (sym (append-nil (shq command)), tokens_from-shq none command []) refl

tokens_from-pipe :
    (w rest : Text)
    → tokens_from bare (some w) (lit " | " ++ rest)
      ≡ emit (word w ∷ []) (emit (bar ∷ []) (emit [] (tokens_from bare none rest)))
unfolding tokens_from classify is_plain lit
tokens_from-pipe w rest = refl

tokens_from-ssh_text :
    (inner : InnerSshOpts) (command : Text)
    → IsPlain inner.dst_user
    → IsPlain inner.dst_host
    → tokens_from bare none (ssh_text inner ++ (b' ' ∷ shq command))
      ≡ some (ssh_words inner ++ word command ∷ [])
unfolding opts lit
tokens_from-ssh_text inner command u h =
    tokens_from-opts inner.dst_user inner.dst_host (b' ' ∷ shq command) inner.connect_timeout_sec
      (word (inner.dst_user ++ (b'@' ∷ inner.dst_host)) ∷ word command ∷ []) u h
      (tokens_from-last (inner.dst_user ++ (b'@' ∷ inner.dst_host)) command)
      inner.migration_key_path
    ∙ ap (λ ts. some (option_words inner.connect_timeout_sec ++ ts))
        (sym (
          append_assoc (key_words inner.migration_key_path)
            (word (inner.dst_user ++ (b'@' ∷ inner.dst_host)) ∷ []) (word command ∷ [])))

-- Where the user and the host are plain text, a shell on the source reads the direct command as the
-- read, the compression and an `ssh` to the target, whose last word is the relay's second command.
pub tokens-direct_src_command :
    (p : StreamParams) (inner : InnerSshOpts)
    → IsPlain inner.dst_user
    → IsPlain inner.dst_host
    → tokens (direct_src_command p inner)
      ≡ some (
          read_words p
          ++ (bar
              ∷ (compress_words p ++ (bar ∷ (ssh_words inner ++ word (relay_dst_command p) ∷ [])))))
unfolding direct_src_command tokens lit
tokens-direct_src_command p inner u h =
    let last = b' ' ∷ shq (relay_dst_command p) in
    let ssh = ssh_text inner ++ last in
    let zstd = zstd_compress p.zstd_threads p.zstd_level ++ (lit " | " ++ ssh) in
    rw
      (
        tokens_from-dd_read_command p.src_dev_path p.block_size (lit " | " ++ zstd),
        tokens_from-pipe (lit "status=progress") zstd,
        tokens_from-zstd_compress p.zstd_threads p.zstd_level (lit " | " ++ ssh),
        tokens_from-pipe (lit "-" ++ decimal p.zstd_level) ssh,
        tokens_from-ssh_text inner (relay_dst_command p) u h,
      )
      refl
