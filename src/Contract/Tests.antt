-- ===== src/Contract/Tests.antt =====
-- Tests and examples on concrete parameters.
use Prim.Native.String.{String, ◌++◌ as ◌<>◌}
use u2u_sdk_js.Common.{
  ℕ, ◌*◌, ◌≡◌, refl, sym, ap, true, false, Option, none, some, List, [], ◌∷◌, ◌++◌, length, take,
  replicate, arith,
}
use u2u_sdk_js.Common.Int.{ℤ, pos}
use u2u_sdk_js.Encoding.Hex.{encode, decode, strip_prefix}
use u2u_sdk_js.Encoding.Hex.RoundTrip.{IsBytes}
use u2u_sdk_js.Contract.Bytes.{set_bytes, set_uint32, uint32_bytes, splice}
use u2u_sdk_js.Contract.Types.{
  SolidityType, add_type, new_selector, bytes_type, solidity_type_to_string, uint24, int24, uint32,
  selector_to_string, base_text, kind,
}
use u2u_sdk_js.Contract.Parameters.{
  Parameters, new_parameters, zeros, build, dynamic_bytes, padded_length, add_param,
  argument_to_bytes, value_to_bytes, add_bytes, add_bytes32, add_bool, add_address, address_bytes,
  add_number_array, add_string_array,
}
use u2u_sdk_js.Contract.Types.Signature.{add_types, further, add_types-signature}
use u2u_sdk_js.Contract.Parameters.Layout.{heads, tails, build-layout}
use u2u_sdk_js.Contract.Parameters.Calls.{
  Call, bytes_call, bytes32_call, bool_call, address_call, call_all,
}
use u2u_sdk_js.Contract.Parameters.Arrays.{add_array-throws}
use u2u_sdk_js.Contract.Result.{get_bytes, get_bytes32, get_address}
use u2u_sdk_js.Contract.Result.Called.{
  add_bytes-get_bytes, add_bytes32-get_bytes32, add_address-get_address,
}

abbrev abi : String → ℤ → Option (List ℕ)
abi text n = some (zeros 32)

abbrev bytes_or_none : Option (List ℕ) → List ℕ
bytes_or_none none = []
bytes_or_none (some b) = b

abi_words : (t : String) (m : ℤ) (b : List ℕ) → abi t m ≡ some b → length b ≡ 32
abi_words t m b e = ap (λ o. length (bytes_or_none o)) (sym e)

abbrev keccak : String → List ℕ
keccak text = 1 ∷ 2 ∷ 3 ∷ 4 ∷ 5 ∷ []

abbrev made : List Call → Parameters
made calls = elim (call_all abi keccak calls new_parameters) [ none ↦ new_parameters | some s ↦ s ]

abbrev with_bytes : Parameters
with_bytes = made (bool_call true ∷ bytes_call (7 ∷ 8 ∷ []) ∷ [])

add_bytes-get_bytes_example :
    (bytes : List ℕ) × (build keccak none with_bytes ≡ some bytes)
    × (get_bytes bytes 1 ≡ some (7 ∷ 8 ∷ []))
unfolding add_bool add_bytes add_param argument_to_bytes value_to_bytes dynamic_bytes padded_length
    set_bytes splice set_uint32 uint32_bytes kind base_text
add_bytes-get_bytes_example =
    add_bytes-get_bytes abi keccak (bool_call true ∷ []) [] (7 ∷ 8 ∷ []) with_bytes abi_words refl
      (omega arith)

abbrev word : List ℕ
word = replicate 32 6

abbrev with_word : Parameters
with_word = made (bool_call true ∷ bytes32_call word ∷ bytes_call (7 ∷ []) ∷ [])

add_bytes32-get_bytes32_example :
    (bytes : List ℕ) × (build keccak none with_word ≡ some bytes) × (get_bytes32 bytes 1 ≡ word)
unfolding add_bool add_bytes add_bytes32 add_param argument_to_bytes value_to_bytes dynamic_bytes
    padded_length set_bytes splice set_uint32 uint32_bytes kind base_text
add_bytes32-get_bytes32_example =
    add_bytes32-get_bytes32 abi keccak (bool_call true ∷ []) (bytes_call (7 ∷ []) ∷ []) word
      with_word abi_words refl refl (omega arith)

abbrev twenty : List ℕ
twenty = replicate 20 171

abbrev with_address : Parameters
with_address = made (address_call (encode twenty) ∷ bytes_call (7 ∷ []) ∷ [])

twenty-IsBytes : IsBytes twenty
twenty-IsBytes = ground arith

add_address-get_address_example :
    (bytes : List ℕ) × (build keccak none with_address ≡ some bytes)
    × (get_address bytes 0 ≡ encode twenty)
unfolding add_address address_bytes decode strip_prefix encode add_bytes add_param argument_to_bytes
    value_to_bytes dynamic_bytes padded_length set_bytes splice set_uint32 uint32_bytes kind
    base_text
add_address-get_address_example =
    add_address-get_address abi keccak [] (bytes_call (7 ∷ []) ∷ []) twenty with_address abi_words
      twenty-IsBytes refl refl (omega arith)

build-layout_example :
    (build keccak none with_bytes
      ≡ some (
          heads (32 * length with_bytes.arguments) with_bytes.arguments
          ++ tails with_bytes.arguments))
    × (build keccak (some "f") with_bytes
        ≡ some (
            take 4 (keccak (selector_to_string (record with_bytes.selector { name = some "f" })))
            ++ (heads (32 * length with_bytes.arguments) with_bytes.arguments
                ++ tails with_bytes.arguments)))
unfolding add_bool add_bytes add_param argument_to_bytes value_to_bytes dynamic_bytes padded_length
    set_bytes splice set_uint32 uint32_bytes kind base_text
build-layout_example = build-layout keccak "f" with_bytes (λ text. omega arith) (omega arith) refl

add_array-throws_example :
    (add_number_array abi uint24 (pos 1 ∷ []) new_parameters ≡ none)
    × (add_number_array abi int24 (pos 1 ∷ []) new_parameters ≡ none)
    × (add_number_array abi uint32 [] new_parameters ≡ none)
    × (add_string_array abi [] new_parameters ≡ none)
add_array-throws_example = add_array-throws abi uint32 (pos 1 ∷ []) new_parameters

abbrev two_types : List SolidityType
two_types = record { ty = uint32; array = true } ∷ record { ty = bytes_type; array = false } ∷ []

add_types-signature_example :
    selector_to_string (add_types two_types (new_selector (some "f")))
    ≡ "f"
      <> ("("
          <> ((solidity_type_to_string (record { ty = uint32; array = true })
                <> further (record { ty = bytes_type; array = false } ∷ []))
              <> ")"))
add_types-signature_example =
    add_types-signature "f" (record { ty = uint32; array = true })
      (record { ty = bytes_type; array = false } ∷ [])

signature_text :
    selector_to_string (add_types two_types (new_selector (some "f"))) ≡ "f(uint32[],bytes)"
unfolding selector_to_string add_type solidity_type_to_string base_text
signature_text = refl
