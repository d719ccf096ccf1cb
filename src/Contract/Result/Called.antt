-- ===== src/Contract/Result/Called.antt =====
-- What the methods of src/contract/ContractFunctionParameters.js were called with is what the getters of
-- src/contract/ContractFunctionResult.js read from the bytes that `_build` makes without a name.
use Prim.Native.String.{String}
use mathlib.Core.Path.{subst}
use mathlib.Core.List.{append-nil, append_assoc}
use u2u_sdk_js.Common.{
  ℕ, ◌+◌, ◌*◌, ◌^◌, ◌<◌, ◌≡◌, refl, sym, ap, ◌∙◌, true, false, Option, none, some, List, [], ◌∷◌,
  ◌++◌, length, length-append, arith, ◌==◌, guard, >>=-eq-some,
}
use u2u_sdk_js.Common.Int.{ℤ}
use u2u_sdk_js.Encoding.Hex.{encode}
use u2u_sdk_js.Encoding.Hex.RoundTrip.{IsBytes, decode-encode, length-encode}
use u2u_sdk_js.Contract.Bytes.{set_bytes, subarray}
use u2u_sdk_js.Contract.Types
use u2u_sdk_js.Contract.Bytes.Laws.{set_bytes-at, subarray-at}
use u2u_sdk_js.Contract.Types.{ArgumentType, bytes_type, bytes32, kind, base_text}
use u2u_sdk_js.Contract.Parameters.{
  Value, Argument, Parameters, new_parameters, one, bytes_value, zeros, heap_length, dynamic_bytes,
  build, add_param, add_bytes, add_bytes32, add_address, address_bytes, argument_to_bytes,
  value_to_bytes,
}
use u2u_sdk_js.Contract.Parameters.Layout.{are_words, build-none}
use u2u_sdk_js.Contract.Parameters.Calls.{
  Call, bytes_call, bytes32_call, address_call, call, call_all, call_all-around,
}
use u2u_sdk_js.Contract.Result.{get_bytes, get_bytes32, get_address}
use u2u_sdk_js.Contract.Result.Read.{
  encoded, length-encoded, word-encoded, bytes-encoded, from_some,
}

abbrev arguments_of : Option Parameters → List Argument
arguments_of none = []
arguments_of (some s) = s.arguments

add_bytes-argument :
    (abi_encode : String → ℤ → Option (List ℕ)) (content : List ℕ) (s u : Parameters)
    → add_bytes abi_encode content s ≡ some u
    → (v : List ℕ) × (dynamic_bytes content ≡ some v)
      × (u.arguments ≡ s.arguments ++ (record { dynamic = true; value = v } ∷ []))
unfolding add_bytes add_param argument_to_bytes value_to_bytes kind
add_bytes-argument abi content s u h =
    let (v, e, f) = >>=-eq-some (dynamic_bytes content) _ h in (v, e, ap arguments_of (sym f))

are_words-append :
    (xs ys : List Argument)
    → are_words xs ≡ true
    → are_words ys ≡ true
    → are_words (xs ++ ys) ≡ true
are_words-append [] ys p q = q
are_words-append (x ∷ xs) ys p q = ground (arith, p, are_words-append xs ys (ground (arith, p)) q)

-- After any calls of the methods that succeed, with `addBytes` at some place among them, on new
-- parameters, and with an encoder of numbers that gives words: if the words and the heap have less than
-- 2^31 bytes, `_build` without a name succeeds, and `getBytes` at that place reads the bytes that
-- `addBytes` was given.
pub add_bytes-get_bytes :
    (abi_encode : String → ℤ → Option (List ℕ)) (keccak : String → List ℕ)
    (before after : List Call) (content : List ℕ) (s : Parameters)
    → ((t : String) (m : ℤ) (b : List ℕ) → abi_encode t m ≡ some b → length b ≡ 32)
    → call_all abi_encode keccak (before ++ (bytes_call content ∷ after)) new_parameters ≡ some s
    → 32 * length s.arguments + heap_length s.arguments < 2 ^ 31
    → (bytes : List ℕ) × (build keccak none s ≡ some bytes)
      × (get_bytes bytes (length before) ≡ some content)
add_bytes-get_bytes abi keccak before after content s l h b =
    let (v, w, first, last, c, p, q, n, x, y) =
      call_all-around abi keccak before after (bytes_call content) new_parameters s l h in
    let (k, e, f) = add_bytes-argument abi content v w c in
    let a : Argument = record { dynamic = true; value = k } in
    let g : s.arguments ≡ first ++ (a ∷ last) =
      q ∙ ap (λ z. z ++ last) (f ∙ ap (λ z. z ++ (a ∷ [])) p) ∙ append_assoc first (a ∷ []) last in
    let o : are_words (first ++ (a ∷ last)) ≡ true = are_words-append first (a ∷ last) x y in
    let r : are_words s.arguments ≡ true = ap are_words g ∙ o in
    let m : length (encoded (first ++ (a ∷ last))) < 2 ^ 31 =
      subst (λ z. length (encoded z) < 2 ^ 31) g (omega (arith, b, length-encoded s.arguments r)) in
    (
      encoded s.arguments,
      build-none keccak s (omega (arith, b)) r,
      ap (λ z. get_bytes (encoded z) (length before)) g
          ∙ ap (get_bytes (encoded (first ++ (a ∷ last)))) (sym n)
          ∙ bytes-encoded first last a content o refl e m,
    )

-- A word that a call adds.
word_of :
    (abi_encode : String → ℤ → Option (List ℕ)) (t : ArgumentType) (v : Value) (s u : Parameters)
    (x : List ℕ)
    → value_to_bytes abi_encode (base_text t) (kind t) v ≡ some x
    → add_param abi_encode (record { ty = t; array = false }) (one v) false s ≡ some u
    → u.arguments ≡ s.arguments ++ (record { dynamic = false; value = x } ∷ [])
unfolding add_param argument_to_bytes
word_of abi t v s u x e h =
    let (y, p, f) =
      >>=-eq-some (argument_to_bytes abi (record { ty = t; array = false }) (one v)) _ h in
    let q : y ≡ x = ap from_some (sym p ∙ e) in
    ap arguments_of (sym f)
    ∙ ap (λ z. s.arguments ++ (record { dynamic = false; value = z } ∷ [])) q

set_bytes-whole : (x : List ℕ) → length x ≡ 32 → set_bytes (zeros 32) 0 x ≡ some x
set_bytes-whole x n =
    ap (λ k. set_bytes k 0 x) (sym (append-nil (zeros 32)))
    ∙ set_bytes-at [] (zeros 32) [] x 0 refl (sym n)
    ∙ ap some (append-nil x)

-- The word in the bytes that `_build` makes.
word-build :
    (abi_encode : String → ℤ → Option (List ℕ)) (keccak : String → List ℕ)
    (before after : List Call) (c : Call) (x : List ℕ) (s : Parameters)
    → ((t : String) (m : ℤ) (b : List ℕ) → abi_encode t m ≡ some b → length b ≡ 32)
    → ((v w : Parameters)
        → call abi_encode keccak c v ≡ some w
        → w.arguments ≡ v.arguments ++ (record { dynamic = false; value = x } ∷ []))
    → length x ≡ 32
    → call_all abi_encode keccak (before ++ (c ∷ after)) new_parameters ≡ some s
    → 32 * length s.arguments + heap_length s.arguments < 2 ^ 31
    → (h r : List ℕ) × (build keccak none s ≡ some (h ++ (x ++ r)))
      × (length h ≡ length before * 32)
word-build abi keccak before after c x s l adds lx e b =
    let (v, w, first, last, g, p, q, n, ws, wl) =
      call_all-around abi keccak before after c new_parameters s l e in
    let a : Argument = record { dynamic = false; value = x } in
    let k : s.arguments ≡ first ++ (a ∷ last) =
      q
      ∙ ap (λ z. z ++ last) (adds v w g ∙ ap (λ z. z ++ (a ∷ [])) p)
      ∙ append_assoc first (a ∷ []) last in
    let wa : are_words (a ∷ last) ≡ true = ground (arith, lx, wl) in
    let o : are_words (first ++ (a ∷ last)) ≡ true = are_words-append first (a ∷ last) ws wa in
    let (h, r, i, _, j) = word-encoded first last a o refl in
    (
      h,
      r,
      build-none keccak s (omega (arith, b)) (ap are_words k ∙ o) ∙ ap some (ap encoded k ∙ j),
      i ∙ ap (λ z. z * 32) n,
    )

-- After any such calls with `addBytes32` at some place among them, given 32 bytes, `_build` without a
-- name succeeds, and `getBytes32` at that place reads these bytes.
pub add_bytes32-get_bytes32 :
    (abi_encode : String → ℤ → Option (List ℕ)) (keccak : String → List ℕ)
    (before after : List Call) (content : List ℕ) (s : Parameters)
    → ((t : String) (m : ℤ) (b : List ℕ) → abi_encode t m ≡ some b → length b ≡ 32)
    → length content ≡ 32
    → call_all abi_encode keccak (before ++ (bytes32_call content ∷ after)) new_parameters ≡ some s
    → 32 * length s.arguments + heap_length s.arguments < 2 ^ 31
    → (bytes : List ℕ) × (build keccak none s ≡ some bytes)
      × (get_bytes32 bytes (length before) ≡ content)
unfolding add_bytes32 get_bytes32 value_to_bytes kind
add_bytes32-get_bytes32 abi keccak before after content s l n e b =
    let x : set_bytes (zeros 32) 0 content ≡ some content = set_bytes-whole content n in
    let (h, r, p, i) =
      word-build abi keccak before after (bytes32_call content) content s l
        (λ v w g.
          let (_, _, f) = >>=-eq-some (guard (length content == 32)) _ g in
          word_of abi bytes32 (bytes_value content) v w content x f)
        n e b in
    (
      h ++ (content ++ r),
      p,
      subarray-at h content r (length before * 32) (length before * 32 + 32) (sym i)
          (omega (arith, i, n)),
    )

address_text : (b : List ℕ) → IsBytes b → length b ≡ 20 → address_bytes (encode b) ≡ some b
unfolding address_bytes
address_text b h n =
    let m : length (encode b) ≡ 40 = omega (arith, n, length-encode b) in
    rw m (ap some (decode-encode b h))

-- After any such calls with `addAddress` at some place among them, given the hexadecimal text of twenty
-- bytes in small letters and without a prefix, `_build` without a name succeeds, and `getAddress` at
-- that place reads this text.
pub add_address-get_address :
    (abi_encode : String → ℤ → Option (List ℕ)) (keccak : String → List ℕ)
    (before after : List Call) (address : List ℕ) (s : Parameters)
    → ((t : String) (m : ℤ) (b : List ℕ) → abi_encode t m ≡ some b → length b ≡ 32)
    → IsBytes address
    → length address ≡ 20
    → call_all abi_encode keccak (before ++ (address_call (encode address) ∷ after)) new_parameters
      ≡ some s
    → 32 * length s.arguments + heap_length s.arguments < 2 ^ 31
    → (bytes : List ℕ) × (build keccak none s ≡ some bytes)
      × (get_address bytes (length before) ≡ encode address)
unfolding add_address get_address value_to_bytes kind
add_address-get_address abi keccak before after address s l k n e b =
    let x = zeros 12 ++ address in
    let p : set_bytes (zeros 32) 12 address ≡ some x =
      ap (λ z. set_bytes z 12 address) (sym (append-nil (zeros 32)))
      ∙ set_bytes-at (zeros 12) (zeros 20) [] address 12 refl (sym n)
      ∙ ap (λ z. some (zeros 12 ++ z)) (append-nil address) in
    let (h, r, q, i) =
      word-build abi keccak before after (address_call (encode address)) x s l
        (λ v w g.
          let (a, d, f) = >>=-eq-some (address_bytes (encode address)) _ g in
          let same : a ≡ address = ap from_some (sym d ∙ address_text address k n) in
          word_of abi Types.address (bytes_value a) v w x (ap (set_bytes (zeros 32) 12) same ∙ p) f)
        (omega (arith, n)) e b in
    let m : length (h ++ zeros 12) ≡ length before * 32 + 12 =
      omega (arith, i, length-append h (zeros 12)) in
    (
      h ++ (x ++ r),
      q,
      ap (λ z. encode (subarray z (length before * 32 + 12) (length before * 32 + 32)))
            (sym (append_assoc h (zeros 12) (address ++ r)))
          ∙ ap encode (
              subarray-at (h ++ zeros 12) address r (length before * 32 + 12)
                (length before * 32 + 32) (sym m) (omega (arith, m, n))),
    )
