-- ===== src/Transaction/Build/Cache.antt =====
-- The list of encoded transactions is a cache: what it holds is what the signed transactions encode to.
use mathlib.Core.Path.{subst}
use u2u_sdk_js.Common.{
  ℕ, zero, suc, ◌+◌, ◌-◌, ◌≤◌, ◌<◌, ◌≡◌, refl, ap, ◌∙◌, false, Option, none, some, List, [], ◌∷◌,
  ◌++◌, map, length, length-map, get_or, ◌==◌, Bool-cases, inl, inr, arith,
}
use u2u_sdk_js.LockList.{LockList, get, write, set, set_if_absent, is_null}
use u2u_sdk_js.Transaction.{
  Signed, Hooks, Transaction, require_frozen-some, require_not_sign_on_demand,
}
use u2u_sdk_js.Transaction.Build.{
  pad, fill, build_transaction, build_from, build_all_transactions, to_bytes,
}
use u2u_sdk_js.Transaction.Sign.{lock_ids}

module _ (encode : Signed → List ℕ) where
  -- Each entry is null or the encoding of the signed transaction at the same place.
  abbrev pub Cached : List (Option (List ℕ)) → List (Option Signed) → Type 0
  Cached [] ss = Unit
  Cached (_ ∷ _) [] = ⊥
  Cached (none ∷ bs) (_ ∷ ss) = Cached bs ss
  Cached (some b ∷ bs) (none ∷ ss) = ⊥
  Cached (some b ∷ bs) (some s ∷ ss) = (b ≡ encode s) × Cached bs ss

  -- The first entries are not null.
  abbrev pub Done : ℕ → List (Option (List ℕ)) → Type 0
  Done zero bs = Unit
  Done (suc i) [] = ⊥
  Done (suc i) (none ∷ bs) = ⊥
  Done (suc i) (some _ ∷ bs) = Done i bs

  Cached-snoc :
      (bs : List (Option (List ℕ))) (ss : List (Option Signed)) (s : Signed)
      → Cached bs ss
      → get_or ss (length bs) none ≡ some s
      → Cached (bs ++ (some (encode s) ∷ [])) ss
  Cached-snoc [] [] s c h = cc
  Cached-snoc [] (none ∷ ss) s c h = cc
  Cached-snoc [] (some r ∷ ss) s c h = ground arith
  Cached-snoc (b ∷ bs) [] s c h = c
  Cached-snoc (none ∷ bs) (r ∷ ss) s c h = Cached-snoc bs ss s c h
  Cached-snoc (some b ∷ bs) (none ∷ ss) s c h = c
  Cached-snoc (some b ∷ bs) (some r ∷ ss) s c h = (c.0, Cached-snoc bs ss s c.1 h)

  Cached-snoc_none :
      (bs : List (Option (List ℕ))) (ss : List (Option Signed))
      → Cached bs ss
      → length bs < length ss
      → Cached (bs ++ (none ∷ [])) ss
  Cached-snoc_none [] [] c h = absurd (omega arith)
  Cached-snoc_none [] (r ∷ ss) c h = tt
  Cached-snoc_none (b ∷ bs) [] c h = c
  Cached-snoc_none (none ∷ bs) (r ∷ ss) c h = Cached-snoc_none bs ss c (omega arith)
  Cached-snoc_none (some b ∷ bs) (none ∷ ss) c h = c
  Cached-snoc_none (some b ∷ bs) (some r ∷ ss) c h = (c.0, Cached-snoc_none bs ss c.1 (omega arith))

  Cached-write :
      (bs : List (Option (List ℕ))) (ss : List (Option Signed)) (i : ℕ) (s : Signed)
      → Cached bs ss
      → i < length bs
      → get_or ss i none ≡ some s
      → Cached (write bs i (some (encode s))) ss
  unfolding write
  Cached-write [] ss i s c l h = absurd (omega arith)
  Cached-write (b ∷ bs) [] i s c l h = absurd c
  Cached-write (none ∷ bs) (none ∷ ss) zero s c l h = cc
  Cached-write (none ∷ bs) (some r ∷ ss) zero s c l h = (ap encode (ground arith), c)
  Cached-write (some b ∷ bs) (none ∷ ss) zero s c l h = c
  Cached-write (some b ∷ bs) (some r ∷ ss) zero s c l h = (ap encode (ground arith), c.1)
  Cached-write (none ∷ bs) (r ∷ ss) (suc i) s c l h = Cached-write bs ss i s c (omega arith) h
  Cached-write (some b ∷ bs) (none ∷ ss) (suc i) s c l h = c
  Cached-write (some b ∷ bs) (some r ∷ ss) (suc i) s c l h =
      (c.0, Cached-write bs ss i s c.1 (omega arith) h)

  Done-snoc :
      (i : ℕ) (bs : List (Option (List ℕ))) (b : List ℕ)
      → Done i bs
      → i ≡ length bs
      → Done (suc i) (bs ++ (some b ∷ []))
  Done-snoc zero [] b d e = tt
  Done-snoc zero (x ∷ bs) b d e = absurd (omega arith)
  Done-snoc (suc i) [] b d e = d
  Done-snoc (suc i) (none ∷ bs) b d e = d
  Done-snoc (suc i) (some x ∷ bs) b d e = Done-snoc i bs b d (omega arith)

  Done-write :
      (i : ℕ) (bs : List (Option (List ℕ))) (b : List ℕ)
      → Done i bs
      → i < length bs
      → Done (suc i) (write bs i (some b))
  unfolding write
  Done-write i [] b d l = absurd (omega arith)
  Done-write zero (x ∷ bs) b d l = tt
  Done-write (suc i) (none ∷ bs) b d l = d
  Done-write (suc i) (some x ∷ bs) b d l = Done-write i bs b d (omega arith)

  Done-le : (i : ℕ) (bs : List (Option (List ℕ))) → Done i bs → i ≤ length bs
  Done-le zero bs d = omega arith
  Done-le (suc i) [] d = absurd d
  Done-le (suc i) (none ∷ bs) d = absurd d
  Done-le (suc i) (some x ∷ bs) d = omega (arith, Done-le i bs d)

  -- An entry that is there already.
  Done-next :
      (i : ℕ) (bs : List (Option (List ℕ)))
      → Done i bs
      → i < length bs
      → is_null (get_or bs i none) ≡ false
      → Done (suc i) bs
  Done-next i [] d l n = absurd (omega arith)
  Done-next zero (none ∷ bs) d l n = cc
  Done-next zero (some x ∷ bs) d l n = tt
  Done-next (suc i) (none ∷ bs) d l n = d
  Done-next (suc i) (some x ∷ bs) d l n = Done-next i bs d (omega arith) n

  -- A full cache is the list of the encodings.
  Cached-full :
      (bs : List (Option (List ℕ))) (xs : List Signed)
      → Cached bs (map some xs)
      → Done (length xs) bs
      → bs ≡ map (λ s. some (encode s)) xs
  Cached-full [] [] c d = refl
  Cached-full [] (s ∷ xs) c d = absurd d
  Cached-full (b ∷ bs) [] c d = absurd c
  Cached-full (none ∷ bs) (s ∷ xs) c d = absurd d
  Cached-full (some b ∷ bs) (s ∷ xs) c d = rw (c.0, Cached-full bs xs c.1 d)

-- The cache of the transaction.
abbrev pub IsCached : Hooks → Transaction → Type 0
IsCached hooks t = Cached hooks.encode_signed t.transactions.list t.signed_transactions.list

get_or-map-some :
    (xs : List Signed) (i : ℕ)
    → i < length xs
    → (s : Signed) × (get_or (map some xs) i none ≡ some s)
get_or-map-some [] i h = absurd (omega arith)
get_or-map-some (x ∷ xs) zero h = (x, refl)
get_or-map-some (x ∷ xs) (suc i) h = get_or-map-some xs i (omega arith)

-- `setIfAbsent` with the encoding, at an index up to which the cache is full.
set_if_absent-Cached :
    (hooks : Hooks) (l : LockList (List ℕ)) (ss : List (Option Signed)) (i : ℕ) (s : Signed)
    → Cached hooks.encode_signed l.list ss
    → Done hooks.encode_signed i l.list
    → get_or ss i none ≡ some s
    → Cached hooks.encode_signed (set_if_absent l i (λ _. some (hooks.encode_signed s))).list ss
      × Done hooks.encode_signed
          (suc i)
          (set_if_absent l i (λ _. some (hooks.encode_signed s))).list
unfolding set_if_absent set
set_if_absent-Cached hooks l ss i s c d h = elim (Bool-cases (i == length l.list)) [
  | inl e ↦
      let p : i ≡ length l.list = ground arith in
      rw e (
        Cached-snoc hooks.encode_signed l.list ss s c (ground arith),
        Done-snoc hooks.encode_signed i l.list (hooks.encode_signed s) d p,
      )
  | inr e ↦
      let p : i < length l.list = ground (arith, Done-le hooks.encode_signed i l.list d) in
      elim (Bool-cases (is_null (get_or l.list i none))) [
        | inl n ↦
            rw (e, n)
              (
                Cached-write hooks.encode_signed l.list ss i s c p h,
                Done-write hooks.encode_signed i l.list (hooks.encode_signed s) d p,
              )
        | inr n ↦ rw (e, n) (c, Done-next hooks.encode_signed i l.list d p n)
      ]
]

-- One round: with the cache full up to the index no null is pushed, so a lock does not matter.
build_step :
    (hooks : Hooks) (t : Transaction) (i : ℕ) (s : Signed)
    → IsCached hooks t
    → Done hooks.encode_signed i t.transactions.list
    → get_or t.signed_transactions.list i none ≡ some s
    → build_transaction hooks i t
      ≡ some (record t {
        transactions = set_if_absent t.transactions i (λ _. some (hooks.encode_signed s));
      })
unfolding build_transaction pad fill get
build_step hooks t i s c d h =
    let z : i - length t.transactions.list ≡ 0 =
      omega (arith, Done-le hooks.encode_signed i t.transactions.list d) in
    rw (z, h) refl

-- The state after the rounds that are left.
build_from-full :
    (hooks : Hooks) (xs : List Signed) (left i : ℕ) (t : Transaction)
    → t.signed_transactions.list ≡ map some xs
    → IsCached hooks t
    → Done hooks.encode_signed i t.transactions.list
    → i + left ≡ length xs
    → (u : Transaction) × (build_from hooks left i t ≡ some u)
      × (u.signed_transactions ≡ t.signed_transactions)
      × IsCached hooks u
      × Done hooks.encode_signed (length xs) u.transactions.list
unfolding build_from
build_from-full hooks xs zero i t e c d n =
    (t, refl, refl, c, subst (λ k. Done hooks.encode_signed k t.transactions.list) (omega arith) d)
build_from-full hooks xs (suc left) i t e c d n =
    let (s, m) = get_or-map-some xs i (omega arith) in
    let h : get_or t.signed_transactions.list i none ≡ some s = rw e m in
    let (c', d') = set_if_absent-Cached hooks t.transactions t.signed_transactions.list i s c d h in
    let (u, p, q, c'', d'') =
      build_from-full hooks xs left (suc i)
        (record t {
          transactions = set_if_absent t.transactions i (λ _. some (hooks.encode_signed s));
        })
        e c' d' (omega arith) in
    (u, rw (build_step hooks t i s c d h) p, q, c'', d'')

to_bytes-some :
    (hooks : Hooks) (t u : Transaction)
    → 0 < length t.signed_transactions.list
    → t.sign_on_demand ≡ false
    → build_all_transactions hooks (lock_ids t) ≡ some u
    → to_bytes hooks t ≡ some (u.transactions.list, u)
unfolding to_bytes require_not_sign_on_demand
to_bytes-some hooks t u l f p = rw (require_frozen-some t l, p) (simp f refl)

-- For a frozen transaction without signing on demand whose cache is sound, so that each of its entries
-- is null or the encoding of the signed transaction at the same place, `toBytes` returns and encodes
-- the list of the encodings of its signed transactions, however much of it was cached and whether the
-- cache is locked, and leaves a sound cache and the signed transactions as they were.
pub to_bytes-Encodes :
    (hooks : Hooks) (xs : List Signed) (t : Transaction)
    → t.signed_transactions.list ≡ map some xs
    → 0 < length xs
    → t.sign_on_demand ≡ false
    → IsCached hooks t
    → (u : Transaction) × (to_bytes hooks t ≡ some (map (λ s. some (hooks.encode_signed s)) xs, u))
      × IsCached hooks u
      × (u.signed_transactions ≡ t.signed_transactions)
unfolding build_all_transactions lock_ids
to_bytes-Encodes hooks xs t e n f c =
    let l : length t.signed_transactions.list ≡ length xs =
      ap length e ∙ length-map xs (λ (s : Signed). some s) in
    let (u, p, q, c', d') =
      build_from-full hooks xs (length xs) 0 (lock_ids t) e c tt (omega arith) in
    let k : Cached hooks.encode_signed u.transactions.list (map some xs) =
      subst (Cached hooks.encode_signed u.transactions.list) (ap (λ m. m.list) q ∙ e) c' in
    let r : build_all_transactions hooks (lock_ids t) ≡ some u =
      ap (λ k. build_from hooks k 0 (lock_ids t)) l ∙ p in
    (
      u,
      to_bytes-some hooks t u (omega (arith, l, n)) f r
          ∙ ap (λ m. some (m, u)) (Cached-full hooks.encode_signed u.transactions.list xs k d'),
      c',
      q,
    )
