-- ===== src/Transaction/Sign/Signers.antt =====
-- Every signed transaction bears the signatures of the same keys, those of the set of signers.
use u2u_sdk_js.Common.{
  ℕ, ◌≡◌, refl, ap, ◌∙◌, length-map_all, ◌<◌, false, length, true, Option, none, some, List, [],
  ◌∷◌, ◌++◌, map, map_all, arith,
}
use u2u_sdk_js.EntityId.Parse.{list_eq}
use u2u_sdk_js.LockList
use u2u_sdk_js.Transaction.{require_frozen-some, SigPair, Signed, Signer, Transaction}
use u2u_sdk_js.Transaction.Sign.{
  has_key, pairs_of, push_pair, sign_one, sign_all, sign_with, begin_signing, lock_ids,
}

-- The keys of the signatures, in the order in which they were added.
abbrev pub keys_of : Signed → List (List ℕ)
keys_of s = map (λ p. p.pub_key_prefix) (pairs_of s.sig_map)

abbrev pub AllSignedBy : List (List ℕ) → List (Option Signed) → Type 0
AllSignedBy keys [] = Unit
AllSignedBy keys (none ∷ ss) = ⊥
AllSignedBy keys (some s ∷ ss) = (keys_of s ≡ keys) × AllSignedBy keys ss

-- The invariant of signing.
abbrev pub IsSigned : Transaction → Type 0
IsSigned t = AllSignedBy t.signer_public_keys t.signed_transactions.list

map-snoc :
    (xs : List SigPair) (p : SigPair)
    → map (λ q. q.pub_key_prefix) (xs ++ (p ∷ []))
      ≡ map (λ q. q.pub_key_prefix) xs ++ (p.pub_key_prefix ∷ [])
map-snoc [] p = refl
map-snoc (x ∷ xs) p = ap (λ r. x.pub_key_prefix ∷ r) (map-snoc xs p)

sign_list-AllSignedBy :
    (key : List ℕ) (signer : Signer) (keys : List (List ℕ)) (ss : List (Option Signed))
    → AllSignedBy keys ss
    → (rs : List (Option Signed)) × (map_all (sign_one key signer) ss ≡ some rs)
      × AllSignedBy (keys ++ (key ∷ [])) rs
unfolding map_all sign_one
sign_list-AllSignedBy key signer keys [] a = ([], refl, tt)
sign_list-AllSignedBy key signer keys (none ∷ ss) a = absurd a
sign_list-AllSignedBy key signer keys (some s ∷ ss) a =
    let (rs, p, b) = sign_list-AllSignedBy key signer keys ss a.1 in
    let pair : SigPair = record { pub_key_prefix = key; signature = signer s.body_bytes } in
    (
      some (push_pair pair s) ∷ rs,
      rw p refl,
      (map-snoc (pairs_of s.sig_map) pair ∙ ap (λ ks. ks ++ (key ∷ [])) a.0, b),
    )

list_eq_self : (xs : List ℕ) → list_eq xs xs ≡ true
list_eq_self [] = refl
list_eq_self (x ∷ xs) = ground (arith, list_eq_self xs)

has_key-snoc : (key : List ℕ) (ks : List (List ℕ)) → has_key key (ks ++ (key ∷ [])) ≡ true
unfolding has_key
has_key-snoc key [] = ground (arith, list_eq_self key)
has_key-snoc key (k ∷ ks) = ground (arith, has_key-snoc key ks)

-- Signing with a new key, where every signed transaction bears the keys of the set of signers and
-- signing on demand is off, succeeds for a frozen transaction; afterwards every signed transaction
-- bears the old keys and then the new one, the cache of encoded transactions is empty, and signing
-- again with that key changes nothing, whatever the second signer is.
pub sign_with-IsSigned :
    (key : List ℕ) (signer : Signer) (t : Transaction)
    → 0 < length t.signed_transactions.list
    → t.sign_on_demand ≡ false
    → has_key key t.signer_public_keys ≡ false
    → IsSigned t
    → (u : Transaction) × (sign_with key signer t ≡ some u)
      × IsSigned u
      × (u.transactions.list ≡ [])
      × (u.signer_public_keys ≡ t.signer_public_keys ++ (key ∷ []))
      × ((again : Signer) → sign_with key again u ≡ some u)
unfolding sign_with sign_all begin_signing lock_ids LockList.clear
sign_with-IsSigned key signer t l f h a =
    let (rs, p, b) =
      sign_list-AllSignedBy key signer t.signer_public_keys t.signed_transactions.list a in
    let later : Transaction = begin_signing key t in
    let u : Transaction = record (lock_ids later) {
      signed_transactions = record t.signed_transactions { list = rs };
    } in
    let n : 0 < length rs =
      omega (arith, l, length-map_all (sign_one key signer) t.signed_transactions.list p) in
    (
      u,
      rw (require_frozen-some t l, h, p) (simp f refl),
      b,
      refl,
      refl,
      λ again. rw (require_frozen-some u n, has_key-snoc key t.signer_public_keys) (simp f refl),
    )
