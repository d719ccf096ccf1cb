-- ===== src/Transfer/Add/Total.antt =====
-- Adding transfers keeps the totals: what is added to a token is its amount, whichever way the entry is
-- stored.
use u2u_sdk_js.Common.{
  ℕ, ◌+◌, ◌%◌, ◌^◌, ◌≡◌, refl, ap, Bool, true, false, List, [], ◌∷◌, ◌&&◌, if◌then◌else◌, arith,
  Bool-cases, inl, inr,
}
use u2u_sdk_js.Common.Int.{ℤ}
use u2u_sdk_js.EntityId.Id.{EntityId, is_same, compare}
use u2u_sdk_js.EntityId.Id.Order.{compare_same}
use u2u_sdk_js.Transfer.Types.{TokenTransfer}
use u2u_sdk_js.Transfer.Long.{word, add_long, word-add_long}
use u2u_sdk_js.Transfer.Add.{same_token, same_account, put_token}

-- The 64-bit words of the amounts of one token, added up.
abbrev pub token_total : EntityId → List TokenTransfer → ℕ
token_total token [] = 0
token_total token (t ∷ ts) =
    (if same_token token t then word t.amount else 0) + token_total token ts

and-left : (a b : Bool) → (a && b) ≡ true → a ≡ true
and-left true b h = refl
and-left false b h = h

same_token_trans :
    (token : EntityId) (new t : TokenTransfer)
    → same_token new.token_id t ≡ true
    → same_token token t ≡ same_token token new
unfolding same_token
same_token_trans token new t h =
    let e : t.token_id ≡ new.token_id = (compare_same t.token_id new.token_id).0 (ground arith) in
    ap (λ i. is_same (compare i token)) e

mod_shift : (a x y b : ℕ) → x % 2 ^ 64 ≡ (y + b) % 2 ^ 64 → (a + x) % 2 ^ 64 ≡ (a + y + b) % 2 ^ 64
mod_shift a x y b h = omega arith

-- The amount of the entry that is found: counted for a token, or not, with the new one.
merge_amount :
    (counted : Bool) (a b : ℤ) (rest : ℕ)
    → ((if counted then word (add_long a b) else 0) + rest) % 2 ^ 64
      ≡ ((if counted then word a else 0) + rest + (if counted then word b else 0)) % 2 ^ 64
merge_amount false a b rest = omega arith
merge_amount true a b rest = omega (arith, word-add_long a b)

-- Adding an entry adds its amount, modulo 2^64, to the total of its token, and to no other total.
pub put_token_total :
    (token : EntityId) (new : TokenTransfer) (ts : List TokenTransfer)
    → token_total token (put_token new ts) % 2 ^ 64
      ≡ (token_total token ts + (if same_token token new then word new.amount else 0)) % 2 ^ 64
unfolding put_token same_token
put_token_total token new [] = omega arith
put_token_total token new (t ∷ ts) =
    elim (Bool-cases (same_token new.token_id t && same_account new.account_id t)) [
      | inl e ↦
          rw (e, ← same_token_trans token new t (and-left _ _ e))
            (merge_amount (same_token token t) t.amount new.amount (token_total token ts))
      | inr e ↦ rw e (
          mod_shift (if same_token token t then word t.amount else 0)
            (token_total token (put_token new ts)) (token_total token ts)
            (if same_token token new then word new.amount else 0) (put_token_total token new ts))
    ]
