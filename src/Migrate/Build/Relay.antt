-- ===== src/Migrate/Build/Relay.antt =====
-- The words that a shell reads in the relay's commands of migrate/build.ts.
use swamp_extensions.Common.{
  ◌≡◌, refl, sym, ℕ, Bool, true, false, List, [], ◌∷◌, ◌++◌, none, some, if◌then◌else◌,
  append_assoc, append-nil,
}
use swamp_extensions.Common.Text.{Text, lit}
use swamp_extensions.Common.Decimal.{decimal}
use swamp_extensions.Migrate.Shell.{
  Token, word, bar, bare, is_plain, classify, emit, tokens_from, tokens,
}
use swamp_extensions.Migrate.Build.{
  shq, zstd_flags, dd_read_command, dd_write_command, zstd_compress, zstd_decompress, StreamParams,
  relay_src_command, relay_dst_command,
}
use swamp_extensions.Migrate.Build.Quoted.{tokens_from-shq, tokens_from-plain, decimal-IsPlain}

pub tokens_from-dd_read_command :
    (dev bs rest : Text)
    → tokens_from bare none (dd_read_command dev bs ++ rest)
      ≡ emit (word (lit "dd") ∷ []) (
          emit (word (lit "if=" ++ dev) ∷ []) (
            emit
              (word (lit "bs=" ++ bs) ∷ [])
              (tokens_from bare (some (lit "status=progress")) rest)))
unfolding dd_read_command tokens_from classify is_plain lit
tokens_from-dd_read_command dev bs rest =
    rw
      (
        append_assoc (shq dev) (lit " bs=" ++ (shq bs ++ lit " status=progress")) rest,
        append_assoc (shq bs) (lit " status=progress") rest,
        tokens_from-shq (some (lit "if=")) dev
            (lit " bs=" ++ (shq bs ++ (lit " status=progress" ++ rest))),
        tokens_from-shq (some (lit "bs=")) bs (lit " status=progress" ++ rest),
      )
      refl

-- The words of the two ends of the copy.
abbrev pub read_words : StreamParams → List Token
read_words p =
    word (lit "dd")
    ∷ word (lit "if=" ++ p.src_dev_path)
    ∷ word (lit "bs=" ++ p.block_size)
    ∷ word (lit "status=progress")
    ∷ []

abbrev pub compress_words : StreamParams → List Token
compress_words p =
    word (lit "zstd")
    ∷ word (lit "-T" ++ decimal p.zstd_threads)
    ∷ word (lit "-" ++ decimal p.zstd_level)
    ∷ []

abbrev pub write_words : StreamParams → List Token
write_words p =
    word (lit "dd")
    ∷ word (lit "of=" ++ p.dst_dev_path)
    ∷ word (lit "bs=" ++ p.block_size)
    ∷ ((if p.sparse then word (lit "conv=sparse") ∷ [] else [])
        ++ word (lit "status=progress") ∷ [])

pub tokens_from-zstd_compress :
    (t l : ℕ) (rest : Text)
    → tokens_from bare none (zstd_compress t l ++ rest)
      ≡ emit (word (lit "zstd") ∷ []) (
          emit
            (word (lit "-T" ++ decimal t) ∷ [])
            (tokens_from bare (some (lit "-" ++ decimal l)) rest))
unfolding zstd_compress zstd_flags tokens_from classify is_plain lit
tokens_from-zstd_compress t l rest =
    rw
      (
        append_assoc (decimal t) (lit " -" ++ decimal l) rest,
        tokens_from-plain (lit "-T") (decimal t) (lit " -" ++ (decimal l ++ rest))
            (decimal-IsPlain t),
        tokens_from-plain (lit "-") (decimal l) rest (decimal-IsPlain l),
      )
      refl

-- A shell on the source reads the relay's first command as `dd` on the source's device, piped into
-- the compression, whatever the device's path is.
tokens-relay_src_command :
    (p : StreamParams)
    → tokens (relay_src_command p) ≡ some (read_words p ++ bar ∷ compress_words p)
unfolding relay_src_command tokens tokens_from classify is_plain lit
tokens-relay_src_command p =
    let zstd = zstd_compress p.zstd_threads p.zstd_level in
    rw
      (
        tokens_from-dd_read_command p.src_dev_path p.block_size (lit " | " ++ zstd),
        sym (append-nil zstd),
        tokens_from-zstd_compress p.zstd_threads p.zstd_level [],
      )
      refl

tokens_from-dd_write_command :
    (dev bs : Text) (sparse : Bool)
    → tokens_from bare none (dd_write_command dev bs sparse)
      ≡ some (
          word (lit "dd")
          ∷ word (lit "of=" ++ dev)
          ∷ word (lit "bs=" ++ bs)
          ∷ ((if sparse then word (lit "conv=sparse") ∷ [] else [])
              ++ word (lit "status=progress") ∷ []))
unfolding dd_write_command tokens_from classify is_plain lit
tokens_from-dd_write_command dev bs true =
    rw
      (
        tokens_from-shq (some (lit "of=")) dev
            (lit " bs=" ++ (shq bs ++ lit " conv=sparse status=progress")),
        tokens_from-shq (some (lit "bs=")) bs (lit " conv=sparse status=progress"),
      )
      refl
tokens_from-dd_write_command dev bs false =
    rw
      (
        tokens_from-shq (some (lit "of=")) dev (lit " bs=" ++ (shq bs ++ lit " status=progress")),
        tokens_from-shq (some (lit "bs=")) bs (lit " status=progress"),
      )
      refl

-- A shell on the destination reads the relay's second command as the decompression, piped into `dd`
-- on the destination's device, whatever the device's path is.
tokens-relay_dst_command :
    (p : StreamParams)
    → tokens (relay_dst_command p)
      ≡ some (word (lit "zstd") ∷ word (lit "-dc") ∷ bar ∷ write_words p)
unfolding relay_dst_command zstd_decompress tokens tokens_from classify is_plain lit
tokens-relay_dst_command p =
    rw (tokens_from-dd_write_command p.dst_dev_path p.block_size p.sparse) refl
