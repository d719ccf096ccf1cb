-- ===== src/Transfer/Add/Decimals.antt =====
-- The expected decimals of a token agree after `addTokenTransferWithDecimals`.
use u2u_sdk_js.Common.{
  ℕ, ◌≡◌, refl, ◌↔◌, ◌≢◌, Bool, true, false, some, List, [], ◌∷◌, ◌++◌, ◌&&◌, ◌||◌, arith,
  Bool-cases, inl, inr,
}
use mathlib.Core.Path.{subst}
use u2u_sdk_js.Common.Int.{ℤ}
use u2u_sdk_js.EntityId.Id.{EntityId}
use u2u_sdk_js.EntityId.Account.{Account}
use u2u_sdk_js.Transfer.Types.{TokenTransfer, Transfers}
use u2u_sdk_js.Transfer.Add.{
  same_token, mismatch, set_decimals, Found, found, absent, decimals_mismatch, decimals_loop, added,
  finish_decimals, add_token_transfer_with_decimals,
}

-- Every entry of the token expects these decimals.
abbrev pub Agree : EntityId → ℕ → List TokenTransfer → Type 0
Agree token d [] = Unit
Agree token d (t ∷ ts) =
    (same_token token t ≡ true → t.expected_decimals ≡ some d) × Agree token d ts

-- Some entry of the token expects other decimals.
abbrev pub any_mismatch : EntityId → ℕ → List TokenTransfer → Bool
any_mismatch token d [] = false
any_mismatch token d (t ∷ ts) =
    same_token token t && mismatch t.expected_decimals d || any_mismatch token d ts

decimals_loop_iff :
    (token : EntityId) (account : Account) (amount : ℤ) (d : ℕ) (ts : List TokenTransfer)
    → ((decimals_loop token account amount d ts).1 ≡ decimals_mismatch)
      ↔ (any_mismatch token d ts ≡ true)
unfolding decimals_loop
decimals_loop_iff token account amount d [] = (ground arith, ground arith)
decimals_loop_iff token account amount d (t ∷ ts) =
    let ih = decimals_loop_iff token account amount d ts in (ground (arith, ih), ground (arith, ih))

set_decimals_same :
    (token : EntityId) (account : Account) (amount : ℤ) (d : ℕ) (t : TokenTransfer)
    → (same_token token (set_decimals account amount d t) ≡ same_token token t)
      × ((set_decimals account amount d t).expected_decimals ≡ some d)
unfolding set_decimals same_token
set_decimals_same token account amount d t = (ground arith, ground arith)

decimals_loop-Agree :
    (token : EntityId) (account : Account) (amount : ℤ) (d : ℕ) (ts : List TokenTransfer)
    → any_mismatch token d ts ≡ false
    → Agree token d (decimals_loop token account amount d ts).0
unfolding decimals_loop
decimals_loop-Agree token account amount d [] h = tt
decimals_loop-Agree token account amount d (t ∷ ts) h = elim (Bool-cases (same_token token t)) [
  | inl e ↦
      let m : mismatch t.expected_decimals d ≡ false = ground arith in
      rw (e, m)
        (
          λ _. (set_decimals_same token account amount d t).1,
          decimals_loop-Agree token account amount d ts (ground arith),
        )
  | inr e ↦ rw e (λ k. absurd (cc), decimals_loop-Agree token account amount d ts (ground arith))
]

Agree-snoc :
    (token : EntityId) (d : ℕ) (ts : List TokenTransfer) (t : TokenTransfer)
    → Agree token d ts
    → t.expected_decimals ≡ some d
    → Agree token d (ts ++ (t ∷ []))
Agree-snoc token d [] t h e = (λ _. e, tt)
Agree-snoc token d (u ∷ ts) t h e = (h.0, Agree-snoc token d ts t h.1 e)

finish_decimals-Agree :
    (token : EntityId) (account : Account) (amount : ℤ) (d : ℕ) (s t : Transfers)
    (ts : List TokenTransfer) (f : Found)
    → Agree token d ts
    → finish_decimals token account amount d s ts f ≡ added t
    → Agree token d t.token_transfers
unfolding finish_decimals
finish_decimals-Agree token account amount d s t ts found h e =
    let w : record s { token_transfers = ts } ≡ t = cc in
    subst (λ u. Agree token d u.token_transfers) w h
finish_decimals-Agree token account amount d s t ts absent h e =
    let new : TokenTransfer = record {
      token_id = token;
      account_id = account;
      expected_decimals = some d;
      amount = amount;
      is_approved = false;
    } in
    let w : record s { token_transfers = ts ++ (new ∷ []) } ≡ t = cc in
    subst (λ u. Agree token d u.token_transfers) w (Agree-snoc token d ts new h refl)
finish_decimals-Agree token account amount d s t ts decimals_mismatch h e = absurd (cc)

finish_decimals_added :
    (token : EntityId) (account : Account) (amount : ℤ) (d : ℕ) (s t : Transfers)
    (ts : List TokenTransfer) (f : Found)
    → finish_decimals token account amount d s ts f ≡ added t
    → f ≢ decimals_mismatch
unfolding finish_decimals
finish_decimals_added token account amount d s t ts found e h = cc
finish_decimals_added token account amount d s t ts absent e h = cc
finish_decimals_added token account amount d s t ts decimals_mismatch e h = cc

-- If the method returns, the transaction is not frozen, no entry of the token expected other decimals
-- before, and every entry of the token expects the given decimals afterwards.
pub with_decimals-Agree :
    (token : EntityId) (account : Account) (amount : ℤ) (d : ℕ) (s t : Transfers)
    → add_token_transfer_with_decimals token account amount d s ≡ added t
    → (s.is_frozen ≡ false)
      × (any_mismatch token d s.token_transfers ≡ false)
      × Agree token d t.token_transfers
unfolding add_token_transfer_with_decimals
with_decimals-Agree token account amount d s t e = elim (Bool-cases s.is_frozen) [
  | inl f ↦ absurd (ground arith)
  | inr f ↦
      let done : finish_decimals token account amount d s looped.0 looped.1 ≡ added t =
        ground arith in
      elim (Bool-cases (any_mismatch token d s.token_transfers)) [
        | inl m ↦ absurd (
            finish_decimals_added token account amount d s t looped.0 looped.1 done
              ((decimals_loop_iff token account amount d s.token_transfers).1 m))
        | inr m ↦ (
          f,
          m,
          finish_decimals-Agree token account amount d s t looped.0 looped.1
              (decimals_loop-Agree token account amount d s.token_transfers m) done,
        )
      ]
]
  where
    looped : List TokenTransfer × Found
    looped = decimals_loop token account amount d s.token_transfers
