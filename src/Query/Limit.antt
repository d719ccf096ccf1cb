-- ===== src/Query/Limit.antt =====
-- The limit on the cost of a query in src/query/Query.js is compared by `Long.toInt`.
use u2u_sdk_js.Common.{
  ℕ, ◌≡◌, ◌↔◌, ◌<◌, ◌*◌, ◌^◌, ◌%◌, ◌-◌, refl, ap, sym, ◌∙◌, Bool, true, false, some, arith,
  if◌then◌else◌, ltb,
}
use u2u_sdk_js.Common.Int.{ℤ, pos, negsuc, ◌≤ℤ◌, ltb_ℤ}
use u2u_sdk_js.Query.{
  QueryHooks, QueryClient, Query, Prepared, ready, failed, max_query_payment_exceeded, check_cost,
}
use u2u_sdk_js.Query.Pay.{limit_of}

accepts_iff :
    (b : Bool) (p : Prepared) (q : Query)
    → ((p ≡ ready q) → ⊥)
    → (if b then p else ready q) ≡ ready q ↔ b ≡ false
accepts_iff true p q h = (λ e. absurd (h e), λ e. ground arith)
accepts_iff false p q h = (λ e. refl, λ e. refl)

ltb_ℤ_iff : (a b : ℤ) → ltb_ℤ a b ≡ false ↔ b ≤ℤ a
ltb_ℤ_iff a b = (λ h. ground arith, λ h. ground arith)

-- For a limit and a cost that `toInt` keeps, the cost is accepted exactly if it is at most the limit.
pub check_cost_iff :
    (hooks : QueryHooks) (client : QueryClient) (cost : ℤ) (q : Query)
    → hooks.to_int (limit_of client q) ≡ limit_of client q
    → hooks.to_int cost ≡ cost
    → check_cost hooks client cost q ≡ ready (record q { query_payment = some cost })
      ↔ cost ≤ℤ limit_of client q
unfolding check_cost
check_cost_iff hooks client cost q l c =
    let accepts =
      accepts_iff (ltb_ℤ (hooks.to_int (limit_of client q)) (hooks.to_int cost))
        (failed (max_query_payment_exceeded cost (limit_of client q)) q)
        (record q { query_payment = some cost }) (λ e. ground arith) in
    let exact : ltb_ℤ (hooks.to_int (limit_of client q)) (hooks.to_int cost)
        ≡ ltb_ℤ (limit_of client q) cost =
      ap (λ x. ltb_ℤ x (hooks.to_int cost)) l ∙ ap (ltb_ℤ (limit_of client q)) c in
    let within = ltb_ℤ_iff (limit_of client q) cost in
    (λ e. within.0 (sym exact ∙ accepts.0 e), λ e. accepts.1 (exact ∙ within.1 e))

-- The low 32 bits of a number that is not negative, as a signed number.
abbrev pub low_word : ℕ → ℤ
low_word n =
    if ltb (n % 2 ^ 32) (2 ^ 31) then pos (n % 2 ^ 32) else negsuc (2 ^ 32 - 1 - n % 2 ^ 32)

low_word-small : (m : ℕ) → m < 2 ^ 31 → low_word m ≡ pos m
low_word-small m b = ground arith

low_word-multiple : (k : ℕ) → low_word (k * 2 ^ 32) ≡ pos 0
low_word-multiple k = let z : (k * 2 ^ 32) % 2 ^ 32 ≡ 0 = omega arith in rw z refl

-- As `toInt` keeps the low 32 bits only, a cost that is a multiple of 2^32 is accepted under every limit
-- below 2^31.
pub check_cost_truncates :
    (hooks : QueryHooks) (client : QueryClient) (k m : ℕ) (q : Query)
    → ((n : ℕ) → hooks.to_int (pos n) ≡ low_word n)
    → limit_of client q ≡ pos m
    → m < 2 ^ 31
    → check_cost hooks client (pos (k * 2 ^ 32)) q
      ≡ ready (record q { query_payment = some (pos (k * 2 ^ 32)) })
unfolding check_cost
check_cost_truncates hooks client k m q t l b =
    let kept : hooks.to_int (limit_of client q) ≡ pos m =
      ap hooks.to_int l ∙ t m ∙ low_word-small m b in
    let lost : hooks.to_int (pos (k * 2 ^ 32)) ≡ pos 0 = t (k * 2 ^ 32) ∙ low_word-multiple k in
    let within : ltb_ℤ (hooks.to_int (limit_of client q)) (hooks.to_int (pos (k * 2 ^ 32)))
        ≡ false =
      ap (λ x. ltb_ℤ x (hooks.to_int (pos (k * 2 ^ 32)))) kept
      ∙ ap (ltb_ℤ (pos m)) lost
      ∙ (ltb_ℤ_iff (pos m) (pos 0)).1 (omega arith) in
    (accepts_iff _ (failed (max_query_payment_exceeded (pos (k * 2 ^ 32)) (limit_of client q)) q)
        (record q { query_payment = some (pos (k * 2 ^ 32)) }) (λ e. ground arith)).1
      within
