-- ===== src/Contract/Parameters/Arrays.antt =====
-- The arrays that `argumentToBytes` of src/contract/ContractFunctionParameters.js does not encode.
use Prim.Native.String.{String}
use u2u_sdk_js.Common.{ℕ, ◌≡◌, refl, Option, none, some, List, [], ◌>>=◌, map_all}
use u2u_sdk_js.Common.Int.{ℤ}
use u2u_sdk_js.Contract.Types.{
  ArgumentType, uint24, int24, ArrayCase, words, heap, unexpected, array_case, kind, base_text,
}
use u2u_sdk_js.Contract.Parameters.{
  Parameters, number_values, array_bytes, value_to_bytes, argument_to_bytes, add_param,
  add_number_array, add_string_array,
}

unexpected_none : (m : Option (List (List ℕ))) → (m >>= array_bytes unexpected) ≡ none
unfolding array_bytes
unexpected_none none = refl
unexpected_none (some v) = refl

empty_none : (c : ArrayCase) → array_bytes c [] ≡ none
unfolding array_bytes
empty_none words = refl
empty_none heap = refl
empty_none unexpected = refl

-- Whatever the encoder of numbers is, an array of numbers of 24 bits cannot be added, and neither can an
-- empty array of numbers of any type or of strings.
pub add_array-throws :
    (abi_encode : String → ℤ → Option (List ℕ)) (t : ArgumentType) (ns : List ℤ) (s : Parameters)
    → (add_number_array abi_encode uint24 ns s ≡ none)
      × (add_number_array abi_encode int24 ns s ≡ none)
      × (add_number_array abi_encode t [] s ≡ none)
      × (add_string_array abi_encode [] s ≡ none)
unfolding add_number_array add_string_array add_param argument_to_bytes map_all array_case
add_array-throws abi_encode t ns s = (
  rw
      (unexpected_none
        (map_all (value_to_bytes abi_encode (base_text uint24) (kind uint24)) (number_values ns)))
      refl,
  rw
      (unexpected_none
        (map_all (value_to_bytes abi_encode (base_text int24) (kind int24)) (number_values ns)))
      refl,
  rw (empty_none (array_case t)) refl,
  refl,
)
