-- ===== src/Unifi/Client/Redacted.antt =====
-- The pieces between the secrets of a text.
use swamp_extensions.Common.{
  ◌≡◌, refl, sym, ap, subst, ◌∙◌, inl, inr, ℕ, zero, suc, ◌-◌, true, false, [], ◌∷◌, ◌++◌, arith,
  length, is_empty, Bool-cases, All, append_assoc, append-nil, drop,
}
use swamp_extensions.Common.Text.{Text, lit, join, starts_with, includes, split_from}
use swamp_extensions.Unifi.Client.{redact_secret}

join-split_from :
    (sep t : Text) (skip : ℕ) (piece s : Text)
    → join sep (t ∷ split_from sep skip piece s)
      ≡ t ++ (sep ++ join sep (split_from sep skip piece s))
unfolding split_from join
join-split_from sep t skip piece [] = refl
join-split_from sep t (suc k) piece (c ∷ s) = join-split_from sep t k piece s
join-split_from sep t zero piece (c ∷ s) = elim (Bool-cases (starts_with (c ∷ s) sep)) [
  | inl e ↦ rw e refl
  | inr e ↦ rw e (join-split_from sep t 0 (piece ++ c ∷ []) s)
]

starts_with-drop : (s p : Text) → starts_with s p ≡ true → p ++ drop (length p) s ≡ s
unfolding starts_with
starts_with-drop s [] e = refl
starts_with-drop [] (d ∷ p) e = absurd (cc)
starts_with-drop (c ∷ s) (d ∷ p) e = ground (arith, starts_with-drop s p)

pred_suc : (n : ℕ) → suc n - 1 ≡ n
pred_suc n = omega arith

module _ (d : ℕ) (sep : Text) where
  join-pieces :
      (skip : ℕ) (piece s : Text)
      → join (d ∷ sep) (split_from (d ∷ sep) skip piece s) ≡ piece ++ drop skip s
  unfolding split_from join
  join-pieces zero piece [] = sym (append-nil piece)
  join-pieces (suc k) piece [] = sym (append-nil piece)
  join-pieces (suc k) piece (c ∷ s) = join-pieces k piece s
  join-pieces zero piece (c ∷ s) = elim (Bool-cases (starts_with (c ∷ s) (d ∷ sep))) [
    | inl e ↦
        rw (e, pred_suc (length sep))
          (join-split_from (d ∷ sep) piece (length sep) [] s
            ∙ ap (λ t. piece ++ ((d ∷ sep) ++ t)) (join-pieces (length sep) [] s)
            ∙ ap (λ t. piece ++ t) (starts_with-drop (c ∷ s) (d ∷ sep) e))
    | inr e ↦ rw e (join-pieces 0 (piece ++ c ∷ []) s ∙ append_assoc piece (c ∷ []) s)
  ]

  -- No suffix of the piece but the empty one begins a separator, with what follows it.
  IsClear : Text → Text → Type 0
  IsClear [] s = Unit
  IsClear (c ∷ piece) s = (starts_with (c ∷ piece ++ s) (d ∷ sep) ≡ false) × IsClear piece s

  IsClear-cons :
      (piece s : Text) (c : ℕ)
      → IsClear piece (c ∷ s)
      → starts_with (c ∷ s) (d ∷ sep) ≡ false
      → IsClear (piece ++ c ∷ []) s
  unfolding IsClear
  IsClear-cons [] s c h e = (e, tt)
  IsClear-cons (b ∷ piece) s c (f, h) e = (
    ap (λ t. starts_with (b ∷ t) (d ∷ sep)) (append_assoc piece (c ∷ []) s) ∙ f,
    IsClear-cons piece s c h e,
  )

  starts_with-append : (t s p : Text) → starts_with (t ++ s) p ≡ false → starts_with t p ≡ false
  unfolding starts_with
  starts_with-append t s [] e = absurd (cc)
  starts_with-append [] s (b ∷ p) e = refl
  starts_with-append (c ∷ t) s (b ∷ p) e = ground (arith, starts_with-append t s p)

  includes-piece : (piece s : Text) → IsClear piece s → includes piece (d ∷ sep) ≡ false
  unfolding IsClear includes
  includes-piece [] s h = refl
  includes-piece (c ∷ piece) s (e, h) =
      rw (starts_with-append (c ∷ piece) s (d ∷ sep) e, includes-piece piece s h) refl

  IsReady : ℕ → Text → Text → Type 0
  IsReady zero piece s = IsClear piece s
  IsReady (suc k) piece s = piece ≡ []

  skip-IsReady : (k : ℕ) (s : Text) → IsReady k [] s
  unfolding IsReady IsClear
  skip-IsReady zero s = tt
  skip-IsReady (suc k) s = refl

  pieces-All :
      (skip : ℕ) (piece s : Text)
      → IsReady skip piece s
      → All (λ t. includes t (d ∷ sep) ≡ false) (split_from (d ∷ sep) skip piece s)
  unfolding split_from IsReady includes
  pieces-All zero piece [] h = (includes-piece piece [] h, tt)
  pieces-All (suc k) piece [] h = (rw h refl, tt)
  pieces-All (suc k) piece (c ∷ s) h =
      pieces-All k piece s (subst (λ p. IsReady k p s) (sym h) (skip-IsReady k s))
  pieces-All zero piece (c ∷ s) h = elim (Bool-cases (starts_with (c ∷ s) (d ∷ sep))) [
    | inl e ↦
        rw e (
          includes-piece piece (c ∷ s) h,
          pieces-All (length (d ∷ sep) - 1) [] s (skip-IsReady _ s),
        )
    | inr e ↦ rw e (pieces-All 0 (piece ++ c ∷ []) s (IsClear-cons piece s c h e))
  ]

-- With a secret that is not empty, a text is cut into pieces, none of which has the secret in it, and
-- which make the text again with the secret between them; what is shown has `[REDACTED]` between the
-- same pieces.
pub pieces-redact_secret :
    (text secret : Text)
    → is_empty secret ≡ false
    → (redact_secret text secret ≡ join (lit "[REDACTED]") (split_from secret 0 [] text))
      × (join secret (split_from secret 0 [] text) ≡ text)
      × All (λ t. includes t secret ≡ false) (split_from secret 0 [] text)
unfolding redact_secret IsReady IsClear
pieces-redact_secret text [] e = absurd (cc)
pieces-redact_secret text (d ∷ sep) e =
    (refl, join-pieces d sep 0 [] text, pieces-All d sep 0 [] text tt)
