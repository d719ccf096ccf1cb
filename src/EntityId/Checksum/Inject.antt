-- ===== src/EntityId/Checksum/Inject.antt =====
-- The last steps of `_checksum` lose nothing: the letters give back the number, the number before
-- the permutation, and from that the sums.
use u2u_sdk_js.Common.{ℕ, ◌+◌, ◌*◌, ◌%◌, ◌<◌, ◌≡◌, List, [], ◌∷◌, arith}
use u2u_sdk_js.EntityId.Checksum.{p5, m, Sums, weigh, number, letters}
use u2u_sdk_js.EntityId.Checksum.Exact.{IsReduced, weigh-lt}

cons-head : {a b : ℕ} {xs ys : List ℕ} → a ∷ xs ≡ b ∷ ys → a ≡ b
cons-head e = cc

cons-tail : {a b : ℕ} {xs ys : List ℕ} → a ∷ xs ≡ b ∷ ys → xs ≡ ys
cons-tail e = cc

pub letters-injective : (c d : ℕ) → c < p5 → d < p5 → letters 5 c [] ≡ letters 5 d [] → c ≡ d
unfolding letters
letters-injective c d hc hd e = omega (
  arith,
  cons-head e,
  cons-head (cons-tail e),
  cons-head (cons-tail (cons-tail e)),
  cons-head (cons-tail (cons-tail (cons-tail e))),
  cons-head (cons-tail (cons-tail (cons-tail (cons-tail e)))),
)

permute-injective : (a b : ℕ) → a < p5 → b < p5 → a * m % p5 ≡ b * m % p5 → a ≡ b
permute-injective a b ha hb e = omega arith

shift-injective : (a b sh : ℕ) → a < p5 → b < p5 → (a + sh) % p5 ≡ (b + sh) % p5 → a ≡ b
shift-injective a b sh ha hb e = omega arith

pub number-injective :
    (len : ℕ) (t u : Sums) (sh : ℕ)
    → IsReduced t
    → IsReduced u
    → number len t sh ≡ number len u sh
    → (t.s ≡ u.s) × (t.s0 ≡ u.s0) × (t.s1 ≡ u.s1)
unfolding number
number-injective len t u sh rt ru e =
    let same : weigh len t ≡ weigh len u =
      shift-injective (weigh len t) (weigh len u) sh (weigh-lt len t rt) (weigh-lt len u ru) (
        permute-injective ((weigh len t + sh) % p5) ((weigh len u + sh) % p5) (omega arith)
          (omega arith) e) in
    omega arith
