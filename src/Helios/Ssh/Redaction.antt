-- ===== src/Helios/Ssh/Redaction.antt =====
-- What the message of a failed command shows of a secret.
use swamp_extensions.Common.{
  [], ◌∷◌, ◌++◌, ◌≡◌, refl, sym, ap, ◌∙◌, false, arith, append_assoc, append-nil, length,
  length-append, drop, Bool-cases, inl, inr,
}
use swamp_extensions.Common.Text.{Text, lit, join, split_from, starts_with, includes}
use swamp_extensions.Helios.Ssh.{
  SshTarget, SshExecResult, redact_string, failed_head, command_failed, last_units,
}

split_from-absent :
    (sep piece s : Text) → includes s sep ≡ false → split_from sep 0 piece s ≡ (piece ++ s) ∷ []
unfolding split_from includes
split_from-absent sep piece [] h = ap (λ (t : Text). t ∷ []) (sym (append-nil piece))
split_from-absent sep piece (c ∷ s) h = elim (Bool-cases (starts_with (c ∷ s) sep)) [
  | inl b ↦ absurd (ground arith)
  | inr b ↦ rw b (
      split_from-absent sep (piece ++ c ∷ []) s (ground arith)
      ∙ ap (λ (t : Text). t ∷ []) (append_assoc piece (c ∷ []) s))
]

redact_string-absent :
    (secret s : Text) → includes s secret ≡ false → redact_string s (secret ∷ []) ≡ s
unfolding redact_string join
redact_string-absent [] s h = refl
redact_string-absent (c ∷ secret) s h =
    ap (join (lit "***")) (split_from-absent (c ∷ secret) [] s h)

drop-append : (x y : Text) → drop (length x) (x ++ y) ≡ y
drop-append [] y = refl
drop-append (c ∷ x) y = drop-append x y

last_units-append : (x y : Text) → last_units (length y) (x ++ y) ≡ y
last_units-append x y =
    ap (λ k. drop k (x ++ y)) (omega (arith, length-append x y)) ∙ drop-append x y

-- Where the standard error is cut to its last 500 units within a secret, the message ends with the
-- rest of the secret and what follows it, as they were printed, if the secret does not occur there
-- again.
pub command_failed_cut :
    (t : SshTarget) (command before shown hidden after : Text) (r : SshExecResult)
    → r.stderr ≡ before ++ (hidden ++ (shown ++ after))
    → length (shown ++ after) ≡ 500
    → includes (shown ++ after) (hidden ++ shown) ≡ false
    → command_failed t command ((hidden ++ shown) ∷ []) r
      ≡ failed_head t command ((hidden ++ shown) ∷ []) r ++ (shown ++ after)
unfolding command_failed
command_failed_cut t command before shown hidden after r e l h =
    let cut : last_units 500 r.stderr ≡ shown ++ after =
      ap (last_units 500) (e ∙ sym (append_assoc before hidden (shown ++ after)))
      ∙ ap (λ k. last_units k ((before ++ hidden) ++ (shown ++ after))) (sym l)
      ∙ last_units-append (before ++ hidden) (shown ++ after) in
    ap (λ s. failed_head t command ((hidden ++ shown) ∷ []) r ++ s)
      (ap (λ s. redact_string s ((hidden ++ shown) ∷ [])) cut
        ∙ redact_string-absent (hidden ++ shown) (shown ++ after) h)
