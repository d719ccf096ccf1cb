-- ===== src/Contract/Parameters/Calls.antt =====
-- Any sequence of the methods that add a parameter: what each adds to the arguments.
use Prim.Native.String.{String}
use mathlib.Core.List.{append-nil, append_assoc}
use u2u_sdk_js.Common.{
  ℕ, zero, suc, ◌+◌, ◌-◌, ◌≡◌, refl, sym, ap, ◌∙◌, Bool, true, false, Option, none, some, List, [],
  ◌∷◌, ◌++◌, length, map_all, arith, leb, ◌==◌, ◌>>=◌, guard, >>=-eq-some, Bool-cases, inl, inr,
}
use u2u_sdk_js.Common.Int.{ℤ}
use u2u_sdk_js.Encoding.Hex.{decode}
use u2u_sdk_js.Contract.Bytes.{splice, set_bytes}
use u2u_sdk_js.Contract.Types.{
  ArgumentType, SolidityType, string_type, bool_type, bytes_type, bytes32, address, func, Kind,
  number, address_kind, bool_kind, func_kind, bytes32_kind, dynamic_kind, kind, Selector, base_text,
  build_selector,
}
use u2u_sdk_js.Contract.Parameters.{
  Value, number_value, bytes_value, bool_value, Param, one, many, Argument, Parameters, zeros, bit,
  bytes_values, number_values, all_32, address_bytes, value_to_bytes, argument_to_bytes, add_param,
  add_string, add_string_array, add_bytes, add_bytes_array, add_bytes32, add_bytes32_array,
  add_bool, add_number, add_number_array, add_address, add_address_array, add_function,
}
use u2u_sdk_js.Contract.Parameters.Layout.{are_words}

-- A call of a method.
pub data Call : Type 0 where
  string_call bytes_call bytes32_call address_call : List ℕ → Call
  string_array_call bytes_array_call bytes32_array_call address_array_call : List (List ℕ) → Call
  bool_call : Bool → Call
  number_call : ArgumentType → ℤ → Call
  number_array_call : ArgumentType → List ℤ → Call
  function_call : List ℕ → Selector → Call

module _ (abi_encode : String → ℤ → Option (List ℕ)) (keccak : String → List ℕ) where
  abbrev pub call : Call → Parameters → Option Parameters
  call (string_call v) = add_string abi_encode v
  call (bytes_call v) = add_bytes abi_encode v
  call (bytes32_call v) = add_bytes32 abi_encode v
  call (address_call v) = add_address abi_encode v
  call (string_array_call vs) = add_string_array abi_encode vs
  call (bytes_array_call vs) = add_bytes_array abi_encode vs
  call (bytes32_array_call vs) = add_bytes32_array abi_encode vs
  call (address_array_call vs) = add_address_array abi_encode vs
  call (bool_call b) = add_bool abi_encode b
  call (number_call t n) = add_number abi_encode t n
  call (number_array_call t ns) = add_number_array abi_encode t ns
  call (function_call a f) = add_function abi_encode keccak a f

  abbrev pub call_all : List Call → Parameters → Option Parameters
  call_all [] s = some s
  call_all (c ∷ cs) s = call c s >>= call_all cs

length-splice : (at : ℕ) (xs buffer : List ℕ) → length (splice at xs buffer) ≡ length buffer
unfolding splice
length-splice zero [] buffer = refl
length-splice zero (x ∷ xs) [] = refl
length-splice zero (x ∷ xs) (b ∷ buffer) = ap suc (length-splice zero xs buffer)
length-splice (suc at) xs [] = refl
length-splice (suc at) xs (b ∷ buffer) = ap suc (length-splice at xs buffer)

pub length-set_bytes :
    (buffer xs : List ℕ) (at : ℕ) {v : List ℕ}
    → set_bytes buffer at xs ≡ some v
    → length v ≡ length buffer
unfolding set_bytes
length-set_bytes buffer xs at h = elim (Bool-cases (leb (at + length xs) (length buffer))) [
  | inl e ↦ ground (arith, e, h, length-splice at xs buffer)
  | inr e ↦ ground (arith, e, h)
]

-- What a call adds: one argument, which is a word if it is not in the heap.
abbrev pub Adds : Parameters → Parameters → Type 0
Adds s u = (a : Argument) × (u.arguments ≡ s.arguments ++ (a ∷ [])) × (are_words (a ∷ []) ≡ true)

abbrev arguments_of : Option Parameters → List Argument
arguments_of none = []
arguments_of (some s) = s.arguments

add_param-Heap :
    (abi_encode : String → ℤ → Option (List ℕ)) (t : SolidityType) (p : Param) (s u : Parameters)
    → add_param abi_encode t p true s ≡ some u
    → Adds s u
unfolding add_param
add_param-Heap abi_encode t p s u h =
    let (v, e, f) = >>=-eq-some (argument_to_bytes abi_encode t p) _ h in
    (record { dynamic = true; value = v }, ap arguments_of (sym f), refl)

add_param-Word :
    (abi_encode : String → ℤ → Option (List ℕ)) (t : ArgumentType) (v : Value) (s u : Parameters)
    → ((b : List ℕ) → value_to_bytes abi_encode (base_text t) (kind t) v ≡ some b → length b ≡ 32)
    → add_param abi_encode (record { ty = t; array = false }) (one v) false s ≡ some u
    → Adds s u
unfolding add_param argument_to_bytes
add_param-Word abi_encode t v s u l h =
    let (b, e, f) =
      >>=-eq-some (argument_to_bytes abi_encode (record { ty = t; array = false }) (one v)) _ h in
    let n : length b ≡ 32 = l b e in
    (record { dynamic = false; value = b }, ap arguments_of (sym f), ground (arith, n))

number_length :
    (abi_encode : String → ℤ → Option (List ℕ)) (text : String) (k : Kind) (n : ℤ) (b : List ℕ)
    → ((t : String) (m : ℤ) (c : List ℕ) → abi_encode t m ≡ some c → length c ≡ 32)
    → value_to_bytes abi_encode text k (number_value n) ≡ some b
    → length b ≡ 32
unfolding value_to_bytes
number_length abi_encode text number n b l h = l text n b h
number_length abi_encode text address_kind n b l h = ground (arith, h)
number_length abi_encode text bool_kind n b l h = ground (arith, h)
number_length abi_encode text func_kind n b l h = ground (arith, h)
number_length abi_encode text bytes32_kind n b l h = ground (arith, h)
number_length abi_encode text dynamic_kind n b l h = ground (arith, h)

-- Every call that succeeds adds one argument, where the encoder of numbers gives words.
pub call-Adds :
    (abi_encode : String → ℤ → Option (List ℕ)) (keccak : String → List ℕ) (c : Call)
    (s u : Parameters)
    → ((t : String) (m : ℤ) (b : List ℕ) → abi_encode t m ≡ some b → length b ≡ 32)
    → call abi_encode keccak c s ≡ some u
    → Adds s u
unfolding add_string add_string_array add_bytes add_bytes_array add_bytes32 add_bytes32_array
    add_bool add_number add_number_array add_address add_address_array add_function value_to_bytes
call-Adds abi keccak (string_call v) s u l h =
    add_param-Heap abi (record { ty = string_type; array = false }) (one (bytes_value v)) s u h
call-Adds abi keccak (bytes_call v) s u l h =
    add_param-Heap abi (record { ty = bytes_type; array = false }) (one (bytes_value v)) s u h
call-Adds abi keccak (string_array_call vs) s u l h =
    add_param-Heap abi (record { ty = string_type; array = true }) (many (bytes_values vs)) s u h
call-Adds abi keccak (bytes_array_call vs) s u l h =
    add_param-Heap abi (record { ty = bytes_type; array = true }) (many (bytes_values vs)) s u h
call-Adds abi keccak (number_array_call t ns) s u l h =
    add_param-Heap abi (record { ty = t; array = true }) (many (number_values ns)) s u h
call-Adds abi keccak (bytes32_array_call vs) s u l h =
    let (_, _, f) = >>=-eq-some (guard (all_32 vs)) _ h in
    add_param-Heap abi (record { ty = bytes32; array = true }) (many (bytes_values vs)) s u f
call-Adds abi keccak (address_array_call vs) s u l h =
    let (bs, _, f) = >>=-eq-some (map_all address_bytes vs) _ h in
    add_param-Heap abi (record { ty = address; array = true }) (many (bytes_values bs)) s u f
call-Adds abi keccak (bool_call b) s u l h =
    add_param-Word abi bool_type (bool_value b) s u
      (λ v e. length-set_bytes (zeros 32) (bit b ∷ []) 31 e) h
call-Adds abi keccak (number_call t n) s u l h =
    add_param-Word abi t (number_value n) s u
      (λ v e. number_length abi (base_text t) (kind t) n v l e) h
call-Adds abi keccak (bytes32_call v) s u l h =
    let (_, _, f) = >>=-eq-some (guard (length v == 32)) _ h in
    add_param-Word abi bytes32 (bytes_value v) s u (λ b e. length-set_bytes (zeros 32) v 0 e) f
call-Adds abi keccak (address_call text) s u l h =
    let (a, _, f) = >>=-eq-some (address_bytes text) _ h in
    add_param-Word abi address (bytes_value a) s u
      (λ b e. length-set_bytes (zeros 32) a (32 - 20) e) f
call-Adds abi keccak (function_call text g) s u l h =
    let (b, _, f2) = >>=-eq-some (build_selector keccak none g) _ h in
    let (_, _, f3) = >>=-eq-some (guard (length (decode text) == 20)) _ f2 in
    let (p, _, f4) = >>=-eq-some (set_bytes (zeros 24) 0 (decode text)) _ f3 in
    let (q, _, f5) = >>=-eq-some (set_bytes p 20 b) _ f4 in
    add_param-Word abi func (bytes_value q) s u (λ v e. length-set_bytes (zeros 32) q (32 - 24) e)
      f5

-- What any calls add.
pub call_all-Adds :
    (abi_encode : String → ℤ → Option (List ℕ)) (keccak : String → List ℕ) (cs : List Call)
    (s u : Parameters)
    → ((t : String) (m : ℤ) (b : List ℕ) → abi_encode t m ≡ some b → length b ≡ 32)
    → call_all abi_encode keccak cs s ≡ some u
    → (args : List Argument) × (u.arguments ≡ s.arguments ++ args)
      × (length args ≡ length cs)
      × (are_words args ≡ true)
call_all-Adds abi keccak [] s u l h =
    ([], ap arguments_of (sym h) ∙ sym (append-nil s.arguments), refl, refl)
call_all-Adds abi keccak (c ∷ cs) s u l h =
    let (v, e, f) = >>=-eq-some (call abi keccak c s) _ h in
    let (a, p, w) = call-Adds abi keccak c s v l e in
    let (args, q, n, ws) = call_all-Adds abi keccak cs v u l f in
    (
      a ∷ args,
      q ∙ ap (λ k. k ++ args) p ∙ append_assoc s.arguments (a ∷ []) args,
      ap suc n,
      ground (arith, w, ws),
    )

bind_again :
    (m : Option Parameters) (f g h : Parameters → Option Parameters)
    → ((u : Parameters) → f u ≡ (g u >>= h))
    → (m >>= f) ≡ (m >>= g >>= h)
bind_again none f g h e = refl
bind_again (some u) f g h e = e u

-- Calls in two parts.
pub call_all-append :
    (abi_encode : String → ℤ → Option (List ℕ)) (keccak : String → List ℕ) (cs ds : List Call)
    (s : Parameters)
    → call_all abi_encode keccak (cs ++ ds) s
      ≡ (call_all abi_encode keccak cs s >>= call_all abi_encode keccak ds)
call_all-append abi keccak [] ds s = refl
call_all-append abi keccak (c ∷ cs) ds s =
    bind_again (call abi keccak c s) (call_all abi keccak (cs ++ ds)) (call_all abi keccak cs)
      (call_all abi keccak ds) (call_all-append abi keccak cs ds)

-- A call with the calls around it.
pub call_all-around :
    (abi_encode : String → ℤ → Option (List ℕ)) (keccak : String → List ℕ)
    (before after : List Call) (c : Call) (s u : Parameters)
    → ((t : String) (m : ℤ) (b : List ℕ) → abi_encode t m ≡ some b → length b ≡ 32)
    → call_all abi_encode keccak (before ++ (c ∷ after)) s ≡ some u
    → (v w : Parameters) × (first last : List Argument) × (call abi_encode keccak c v ≡ some w)
      × (v.arguments ≡ s.arguments ++ first)
      × (u.arguments ≡ w.arguments ++ last)
      × (length first ≡ length before)
      × (are_words first ≡ true)
      × (are_words last ≡ true)
call_all-around abi keccak before after c s u l h =
    let (v, e, f) =
      >>=-eq-some (call_all abi keccak before s) _
        (sym (call_all-append abi keccak before (c ∷ after) s) ∙ h) in
    let (w, g, k) = >>=-eq-some (call abi keccak c v) _ f in
    let (first, p, n, x) = call_all-Adds abi keccak before s v l e in
    let (last, q, _, y) = call_all-Adds abi keccak after w u l k in
    (v, w, first, last, g, p, q, n, x, y)
