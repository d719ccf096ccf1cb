-- ===== src/LockList/Round.antt =====
-- `advance` and `next` go round the list.
use u2u_sdk_js.Common.{ℕ, zero, suc, ◌+◌, ◌%◌, ◌<◌, ◌≡◌, sym, ap, ◌∙◌, Option, some, length, arith}
use mathlib.Core.Path.{subst}
use native.Mathlib.Nat.{mod-eq_of_lt, mod-add-mod, add-zero, add-mod_right}
use u2u_sdk_js.LockList.{LockList, advance, next, get, next_index}

next_mod : (i k n : ℕ) → ((i + 1) % n + k) % n ≡ (i + suc k) % n
next_mod i k n = rw mod-add-mod (ap (λ t. t % n) (omega arith))

next_index_lem : (i n : ℕ) → i < n → next_index (some i) n ≡ some ((i + 1) % n)
next_index_lem i n h = ground arith

zero_round : (i n : ℕ) → i < n → i ≡ (i + 0) % n
zero_round i n h = rw (add-zero, mod-eq_of_lt h)

full_round : (i n : ℕ) → i < n → (i + n) % n ≡ i
full_round i n h = rw (add-mod_right, mod-eq_of_lt h)

module _ {ℓ} {A : Type ℓ} where
  -- The list after so many calls of `advance`.
  abbrev pub advances : ℕ → LockList A → LockList A
  advances zero l = l
  advances (suc k) l = advances k (advance l).1

  abbrev at : LockList A → Option ℕ → LockList A
  at l i = record l { index = i }

  advances-at :
      (k i : ℕ) (l : LockList A)
      → i < length l.list
      → advances k (at l (some i)) ≡ at l (some ((i + k) % length l.list))
  unfolding advance
  advances-at zero i l h = ap (λ t. at l (some t)) (zero_round i (length l.list) h)
  advances-at (suc k) i l h =
      ap (λ o. advances k (at l o)) (next_index_lem i (length l.list) h)
      ∙ advances-at k ((i + 1) % length l.list) l (omega arith)
      ∙ ap (λ t. at l (some t)) (next_mod i k (length l.list))

  -- From an index within the list, the call of `next` that follows `k` others returns the element `k`
  -- places further on, counted round the end; and after as many calls as the list has elements the
  -- list is as it was.
  pub next_round :
      (l : LockList A) (i k : ℕ)
      → l.index ≡ some i
      → i < length l.list
      → ((next (advances k l)).0 ≡ get l ((i + k) % length l.list))
        × (advances (length l.list) l ≡ l)
  unfolding next advance get
  next_round l i k e h = (
    subst (λ o. (next (advances k (at l o))).0 ≡ get l ((i + k) % length l.list)) (sym e)
        (ap (λ t. (next t).0) (advances-at k i l h)),
    subst (λ o. advances (length l.list) (at l o) ≡ at l o) (sym e)
        (advances-at (length l.list) i l h
          ∙ ap (λ t. at l (some t)) (full_round i (length l.list) h)),
  )
