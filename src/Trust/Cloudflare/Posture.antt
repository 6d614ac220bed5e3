-- ===== src/Trust/Cloudflare/Posture.antt =====
-- trust-network/shared/graph.ts: the conditional-access posture of an Access application.
use swamp_extensions.Common.{
  ◌≡◌, refl, inl, inr, Bool, true, false, not, ◌&&◌, ◌||◌, List, [], ◌∷◌, ◌++◌, Option, none, some,
  arith, foldl, if◌then◌else◌, any, is_empty, ◌⊎◌, ◌∙◌, ap, get_or, filter, flat_map, ◌==◌,
  text_test, text_beq, text_beq_iff, All, Bool-cases,
}
use swamp_extensions.Common.Text.{Text, lit, distinct, contains}
use swamp_extensions.Common.Sort.{sort, text_le}
use swamp_extensions.Trust.Schema.{CfAccessApp, CfAccessPolicy, ConditionalAccess}

pub record AppPosture : Type 0 where
  pub policies : List CfAccessPolicy
  pub factors : List Text
  pub wide_open : Bool

-- `p.appId === app.appId`, where the left side may be null.
abbrev same_app : Option Text → Text → Bool
same_app none id = false
same_app (some i) id = i == id

abbrev pub applies : Text → Text → CfAccessPolicy → Bool
applies account_id app_id p = p.account_id == account_id && same_app p.app_id app_id

abbrev pub allows : CfAccessPolicy → Bool
allows p = p.decision == lit "allow"

-- The policy admits everyone or bypasses authentication.
abbrev pub opens : CfAccessPolicy → Bool
opens p = (allows p && p.allows_everyone) || p.decision == lit "bypass"

unfoldable pub compute_app_posture : CfAccessApp → List CfAccessPolicy → AppPosture
compute_app_posture app policies =
    let app_policies = filter (applies app.account_id app.app_id) policies in
    record {
      policies = app_policies;
      factors = sort text_le (distinct (flat_map (λ p. p.factors) (filter allows app_policies)));
      wide_open = any opens app_policies;
    }

unfoldable pub app_conditional_access : AppPosture → ConditionalAccess
app_conditional_access posture = record {
  present = not posture.wide_open && not (is_empty posture.factors);
  factors = posture.factors;
}

abbrev pub strong_factors : List Text
strong_factors = lit "device-posture" ∷ lit "mfa" ∷ []

unfoldable pub has_strong_factor : AppPosture → Bool
has_strong_factor posture = any (contains strong_factors) posture.factors

-- `Map.prototype.set` on a list of entries in insertion order, and `get`.
put_posture : Text → AppPosture → List (Text × AppPosture) → List (Text × AppPosture)
put_posture k v [] = (k, v) ∷ []
put_posture k v ((j, w) ∷ m) = if text_beq j k then (j, v) ∷ m else (j, w) ∷ put_posture k v m

get_posture : Text → List (Text × AppPosture) → Option AppPosture
get_posture k [] = none
get_posture k ((j, v) ∷ m) = if text_beq j k then some v else get_posture k m

abbrev pub posture_key : CfAccessApp → Text
posture_key app = app.account_id ++ (lit "/" ++ app.app_id)

unfoldable pub posture_by_app : List CfAccessApp → List CfAccessPolicy → List (Text × AppPosture)
unfolding put_posture
posture_by_app apps policies =
    foldl (λ m app. put_posture (posture_key app) (compute_app_posture app policies) m) [] apps

-- `postureByApp.get(…)!`. The empty posture stands for the missing one, which `posture_listed`
-- rules out for the applications that the map is made from.
unfoldable pub posture_of : List (Text × AppPosture) → CfAccessApp → AppPosture
unfolding get_posture
posture_of m app =
    get_or (get_posture (posture_key app) m)
      (record { policies = []; factors = []; wide_open = false })

get_posture-put_posture :
    (k j : Text) (v : AppPosture) (m : List (Text × AppPosture))
    → get_posture j (put_posture k v m) ≡ (if text_beq k j then some v else get_posture j m)
unfolding get_posture put_posture
get_posture-put_posture k j v [] = refl
get_posture-put_posture k j v ((i, w) ∷ m) =
    ground
      (arith, text_beq_iff k j, text_beq_iff i k, text_beq_iff i j, get_posture-put_posture k j v m)

module _ (policies : List CfAccessPolicy) (app : CfAccessApp) where
  -- Applications with one key are one application.
  abbrev pub IsKeyed : CfAccessApp → Type 0
  IsKeyed a =
      posture_key a ≡ posture_key app → (a.account_id ≡ app.account_id) × (a.app_id ≡ app.app_id)

  compute_app_posture_same :
      (a : CfAccessApp)
      → a.account_id ≡ app.account_id
      → a.app_id ≡ app.app_id
      → compute_app_posture a policies ≡ compute_app_posture app policies
  unfolding compute_app_posture
  compute_app_posture_same a h k = simp (h, k)

  get_posture-foldl :
      (apps : List CfAccessApp) (m : List (Text × AppPosture))
      → All IsKeyed apps
      → (get_posture (posture_key app) m ≡ some (compute_app_posture app policies))
        ⊎ (any (λ a. text_beq (posture_key a) (posture_key app)) apps ≡ true)
      → get_posture
          (posture_key app)
          (foldl (λ n a. put_posture (posture_key a) (compute_app_posture a policies) n) m apps)
        ≡ some (compute_app_posture app policies)
  get_posture-foldl [] m h (inl e) = e
  get_posture-foldl [] m h (inr e) = absurd (cc)
  get_posture-foldl (a ∷ apps) m (k, h) l =
      get_posture-foldl apps (put_posture (posture_key a) (compute_app_posture a policies) m) h
        (elim (Bool-cases (text_beq (posture_key a) (posture_key app))) [
          | inl same ↦
              let (account, id) = k ((text_beq_iff _ _).0 same) in
              inl (
                get_posture-put_posture (posture_key a) (posture_key app) _ m
                ∙ rw same (ap some (compute_app_posture_same a account id)))
          | inr other ↦ elim l [
            | inl e ↦
                inl (get_posture-put_posture (posture_key a) (posture_key app) _ m ∙ rw other e)
            | inr e ↦ inr (ground arith)
          ]
        ])

-- The posture found for an application that is listed is the one computed from its policies, where
-- the key tells the applications apart.
pub posture_listed :
    (apps : List CfAccessApp) (policies : List CfAccessPolicy) (app : CfAccessApp)
    → All (IsKeyed policies app) apps
    → any (λ a. text_beq (posture_key a) (posture_key app)) apps ≡ true
    → posture_of (posture_by_app apps policies) app ≡ compute_app_posture app policies
unfolding posture_of posture_by_app
posture_listed apps policies app h e = rw (get_posture-foldl policies app apps [] h (inr e))
