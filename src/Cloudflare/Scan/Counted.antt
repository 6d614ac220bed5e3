-- ===== src/Cloudflare/Scan/Counted.antt =====
-- The counts of a scan agree with what it wrote, whichever lists fail.
use swamp_extensions.Common.{
  ◌≡◌, refl, ap, ◌∙◌, ℕ, suc, ◌+◌, List, [], ◌∷◌, Option, none, some, arith, foldl, foldl_inv,
  if◌then◌else◌, length, count, count-append, tally_of, tally_of-bump, text_beq,
}
use swamp_extensions.Common.Text.{Text}
use swamp_extensions.Cloudflare.Scan.{
  Resource, Written, Listing, Client, Scan, no_counts, started, write, count_one, note, listed,
  and_then, noted, add_policy, add_app, add_idp, add_token, add_cert, account_lists, finish_account,
  add_account, scan_accounts, summary_of,
}

-- The number of resources that were written to a spec.
abbrev pub written_as : Text → List Written → ℕ
written_as k ws = count (λ w. text_beq w.0 k) ws

module _ (k : Text) where
  abbrev pub IsCounted : Scan → Type 0
  IsCounted s = tally_of k s.counts ≡ written_as k s.written

  -- A write and the increment for its spec.
  write-IsCounted :
      (s : Scan) (kind name : Text) (r : Resource)
      → IsCounted s
      → IsCounted (count_one kind (write s kind name r))
  unfolding write count_one count
  write-IsCounted s kind name r h =
      tally_of-bump k kind s.counts
      ∙ ap (λ n. n + (if text_beq kind k then 1 else 0)) h
      ∙ omega (arith, count-append (λ w. text_beq w.0 k) s.written ((kind, name, r) ∷ []))

  started-IsCounted : IsCounted started
  unfolding started no_counts tally_of count
  started-IsCounted = ground arith

-- What a write and a note keep, the lists of an account keep.
module _ (P : Scan → Type 0)
    (writes : (s : Scan) (kind name : Text) (r : Resource)
      → P s
      → P (count_one kind (write s kind name r)))
    (notes : (s : Scan) (text : Text) → P s → P (note s text)) (c : Client) where
  listed_keeps :
      {A : Type 0} (f : Scan → A → Scan)
      → ((s : Scan) (a : A) → P s → P (f s a))
      → (l : Listing A) (s : Scan) → P s
      → P (listed f l s).0
  unfolding listed
  listed_keeps f keep (items, end) s h = foldl_inv P f keep items s h

  and_then_keeps :
      (x : Scan × Option Text) (f : Scan → Scan × Option Text)
      → P x.0
      → ((s : Scan) → P s → P (f s).0)
      → P (and_then x f).0
  unfolding and_then
  and_then_keeps (s, none) f h keep = keep s h
  and_then_keeps (s, some e) f h keep = h

  noted_keeps : (app : Text) (x : Scan × Option Text) → P x.0 → P (noted c app x)
  unfolding noted
  noted_keeps app (s, none) h = h
  noted_keeps app (s, some e) h = notes s _ h

  account_keeps : (account : Text) (s : Scan) → P s → P (account_lists c account s).0
  unfolding account_lists add_app add_policy add_idp add_token add_cert
  account_keeps account s h =
      and_then_keeps _ _
        (and_then_keeps _ _
          (and_then_keeps _ _
            (listed_keeps (add_app c account)
              (λ t app g. noted_keeps app.id _ (
                listed_keeps (add_policy c account app.id) (λ u raw. writes u _ _ _) _ _
                  (writes t _ _ _ g)))
              (c.applications account) s h)
            (λ t. listed_keeps (add_idp c account) (λ u idp. writes u _ _ _) _ t))
          (λ t. listed_keeps (add_token c account) (λ u token. writes u _ _ _) _ t))
        (λ t. listed_keeps (add_cert c account) (λ u cert. writes u _ _ _) _ t)

module _ (c : Client) where
  finish-IsCounted :
      (k account : Text) (x : Scan × Option Text)
      → IsCounted k x.0
      → IsCounted k (finish_account c account x)
  unfolding finish_account note
  finish-IsCounted k account (s, none) h = h
  finish-IsCounted k account (s, some e) h = h

  add_account-IsCounted :
      (k : Text) (s : Scan) (account : Text) → IsCounted k s → IsCounted k (add_account c s account)
  unfolding add_account note
  add_account-IsCounted k s account h =
      finish-IsCounted k account (account_lists c account s)
        (account_keeps (IsCounted k) (write-IsCounted k) (λ t text g. g) c account s h)

  -- For every kind of resource, the count in the summary of a scan is the number of resources that
  -- it wrote to the spec of that name, whichever lists end with an error.
  pub scan_accounts-IsCounted :
      (k : Text) (accounts : List Text)
      → tally_of k (summary_of c (scan_accounts c accounts)).resource_counts
        ≡ written_as k (scan_accounts c accounts).written
  unfolding summary_of scan_accounts
  scan_accounts-IsCounted k accounts =
      foldl_inv (IsCounted k) (add_account c) (add_account-IsCounted k) accounts started
        (started-IsCounted k)

  abbrev targets : Scan → ℕ
  targets s = s.targets_scanned + s.targets_failed

  finish_targets :
      (account : Text) (x : Scan × Option Text)
      → targets (finish_account c account x) ≡ suc (targets x.0)
  unfolding finish_account note
  finish_targets account (s, none) = omega arith
  finish_targets account (s, some e) = omega arith

  targets-add_account :
      (s : Scan) (account : Text) → targets (add_account c s account) ≡ suc (targets s)
  unfolding add_account write count_one note
  targets-add_account s account =
      finish_targets account (account_lists c account s)
      ∙ ap suc (
          account_keeps (λ t. targets t ≡ targets s) (λ t kind name r h. h) (λ t text h. h) c
            account s refl)

  targets-go :
      (accounts : List Text) (s : Scan)
      → targets (foldl (add_account c) s accounts) ≡ length accounts + targets s
  targets-go [] s = omega arith
  targets-go (a ∷ accounts) s =
      omega (arith, targets-go accounts (add_account c s a), targets-add_account s a)

  -- Each account is counted once, as scanned or as failed.
  pub scan_accounts_targets :
      (accounts : List Text)
      → (summary_of c (scan_accounts c accounts)).targets_scanned
          + (summary_of c (scan_accounts c accounts)).targets_failed
        ≡ length accounts
  unfolding summary_of scan_accounts started
  scan_accounts_targets accounts = omega (arith, targets-go accounts started)
