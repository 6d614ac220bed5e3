-- ===== src/Helios/Zonecfg/Scoped.antt =====
-- What the parser of an export keeps of the lines within a scope.
use swamp_extensions.Common.{
  ◌≡◌, refl, ◌⊎◌, inl, inr, true, false, List, [], ◌∷◌, Option, none, some, arith, foldl, is_empty,
  All, Bool-cases, ◌==◌, text_test,
}
use swamp_extensions.Common.Text.{Text, lit, starts_with, trim}
use swamp_extensions.Common.Json.{Number}
use swamp_extensions.Common.Assoc.{lookup}
use swamp_extensions.Helios.Lines.{lines_of, or_null, set_line}
use swamp_extensions.Helios.Zonecfg.{
  ParsedZonecfg, State, Scope, net, capped_cpu, capped_memory, dedicated_cpu, dataset, ignored,
  end_scope, set_in_scope, set_global, global_line, scoped_line, other_line, opened_scope,
  trimmed_line, zonecfg_line, parse_zonecfg_export, initial,
}

-- Nothing that belongs in a scope is set.
abbrev pub IsUnscoped : ParsedZonecfg → Type 0
IsUnscoped p =
    (p.vnic ≡ none)
    × (p.allowed_address ≡ none)
    × (p.default_router ≡ none)
    × (p.capped_cpu ≡ none)
    × (p.capped_memory_mb ≡ none)
    × (p.dedicated_cpu ≡ none)
    × (p.delegated_datasets ≡ [])

-- A `set` line has the space that zonecfg prints behind `set`.
abbrev pub HasSpace : Text → Type 0
HasSpace raw = (set_line (trim raw) ≡ none) ⊎ (starts_with (trim raw) (lit "set ") ≡ true)

record IsBare (s : State) : Type 0 where
  out : IsUnscoped s.out
  buf : s.scope_buf ≡ []

module _ (number : Text → Number) where
  end_scope-IsUnscoped :
      (p : ParsedZonecfg) (c : Scope) → IsUnscoped p → IsUnscoped (end_scope number p c [])
  unfolding end_scope lookup or_null
  end_scope-IsUnscoped p net h = h
  end_scope-IsUnscoped p capped_cpu h = h
  end_scope-IsUnscoped p capped_memory h = h
  end_scope-IsUnscoped p dedicated_cpu h = h
  end_scope-IsUnscoped p dataset (a, b, c, d, e, f, g) = (a, b, c, d, e, f, rw g refl)
  end_scope-IsUnscoped p ignored h = h

  set_global-IsUnscoped :
      (p : ParsedZonecfg) (kv : Text × Text) → IsUnscoped p → IsUnscoped (set_global number p kv)
  unfolding set_global
  set_global-IsUnscoped p (k, v) h = ground arith

  global_line-IsUnscoped :
      (p : ParsedZonecfg) (o : Option (Text × Text))
      → IsUnscoped p
      → IsUnscoped (global_line number p o)
  unfolding global_line
  global_line-IsUnscoped p none h = h
  global_line-IsUnscoped p (some kv) h = set_global-IsUnscoped p kv h

  scoped_line-IsBare :
      (s : State) (line : Text) (o : Option Scope)
      → (starts_with line (lit "set ") ≡ false → set_line line ≡ none)
      → starts_with line (lit "set ") ≡ false
      → IsBare s
      → IsBare (scoped_line number s line o)
  unfolding scoped_line set_in_scope
  scoped_line-IsBare s line none e f h = h
  scoped_line-IsBare s line (some c) e f h = elim (Bool-cases (line == lit "end")) [
    | inl at ↦ rw at (record { out = rw h.buf (end_scope-IsUnscoped s.out c h.out); buf = h.buf })
    | inr at ↦ rw at (record { out = h.out; buf = rw (e f) h.buf })
  ]

  other_line-IsBare :
      (s : State) (line : Text) (o : Option Scope)
      → (starts_with line (lit "set ") ≡ false → set_line line ≡ none)
      → starts_with line (lit "set ") ≡ false
      → IsBare s
      → IsBare (other_line number s line o)
  unfolding other_line
  other_line-IsBare s line (some c) e f h = record { out = h.out; buf = refl }
  other_line-IsBare s line none e f h = scoped_line-IsBare s line s.scope e f h

  trimmed_line-IsBare :
      (s : State) (line : Text)
      → (starts_with line (lit "set ") ≡ false → set_line line ≡ none)
      → IsBare s
      → IsBare (trimmed_line number s line)
  unfolding trimmed_line
  trimmed_line-IsBare s line e h = elim (Bool-cases (is_empty line)) [
    | inl a ↦ rw a h
    | inr a ↦ elim (Bool-cases (starts_with line (lit "set "))) [
      | inl b ↦
          rw (a, b)
            (record { out = global_line-IsUnscoped s.out (set_line line) h.out; buf = h.buf })
      | inr b ↦ rw (a, b) (other_line-IsBare s line (opened_scope number line) e b h)
    ]
  ]

  zonecfg_lines-IsBare :
      (lines : List Text) (s : State)
      → All HasSpace lines
      → IsBare s
      → IsBare (foldl (zonecfg_line number) s lines)
  unfolding zonecfg_line
  zonecfg_lines-IsBare [] s a h = h
  zonecfg_lines-IsBare (raw ∷ lines) s (a, rest) h =
      zonecfg_lines-IsBare lines (zonecfg_line number s raw) rest
        (trimmed_line-IsBare s (trim raw) (λ f. elim a [ inl n ↦ n | inr b ↦ absurd (cc) ]) h)

  -- Of an export whose `set` lines have a space behind `set`, as zonecfg prints them, nothing is kept
  -- of any scope: neither a network card nor its address and router, neither a cap of processors or
  -- of memory nor dedicated processors, and no dataset.
  pub parse_zonecfg_export-IsUnscoped :
      (raw : Text) → All HasSpace (lines_of raw) → IsUnscoped (parse_zonecfg_export number raw)
  unfolding parse_zonecfg_export
  parse_zonecfg_export-IsUnscoped raw a =
      (zonecfg_lines-IsBare (lines_of raw) (record { out = initial; scope = none; scope_buf = [] })
        a (record { out = (refl, refl, refl, refl, refl, refl, refl); buf = refl })).out
