-- ===== src/Contract/Types.antt =====
-- The types of arguments: `ArgumentType`, `solidityTypeToString` and the selector of
-- src/contract/ContractFunctionSelector.js, and the cases of the switches of `argumentToBytes` in
-- src/contract/ContractFunctionParameters.js. The hash of a signature is not in the repository: it is a
-- parameter, from the text of the signature to bytes.
pub mod Signature
use Prim.Native.String.{String, ◌++◌ as ◌<>◌}
use u2u_sdk_js.Common.{
  ℕ, Bool, Option, none, some, List, [], ◌∷◌, ◌++◌, length, take, ltb, if◌then◌else◌,
}

pub data ArgumentType : Type 0 where
  uint8 int8 uint16 int16 uint24 int24 uint32 int32 uint40 int40 uint48 int48 uint56 int56 uint64
        int64 uint72 int72 uint80 int80 uint88 int88 uint96 int96 uint104 int104 uint112 int112
        uint120 int120 uint128 int128 uint136 int136 uint144 int144 uint152 int152 uint160 int160
        uint168 int168 uint176 int176 uint184 int184 uint192 int192 uint200 int200 uint208 int208
        uint216 int216 uint224 int224 uint232 int232 uint240 int240 uint248 int248 uint256 int256
        string_type bool_type bytes_type bytes32 address func :
      ArgumentType

pub record SolidityType : Type 0 where
  pub ty : ArgumentType
  pub array : Bool

unfoldable pub base_text : ArgumentType → String
base_text uint8 = "uint8"
base_text int8 = "int8"
base_text uint16 = "uint16"
base_text int16 = "int16"
base_text uint24 = "uint24"
base_text int24 = "int24"
base_text uint32 = "uint32"
base_text int32 = "int32"
base_text uint40 = "uint40"
base_text int40 = "int40"
base_text uint48 = "uint48"
base_text int48 = "int48"
base_text uint56 = "uint56"
base_text int56 = "int56"
base_text uint64 = "uint64"
base_text int64 = "int64"
base_text uint72 = "uint72"
base_text int72 = "int72"
base_text uint80 = "uint80"
base_text int80 = "int80"
base_text uint88 = "uint88"
base_text int88 = "int88"
base_text uint96 = "uint96"
base_text int96 = "int96"
base_text uint104 = "uint104"
base_text int104 = "int104"
base_text uint112 = "uint112"
base_text int112 = "int112"
base_text uint120 = "uint120"
base_text int120 = "int120"
base_text uint128 = "uint128"
base_text int128 = "int128"
base_text uint136 = "uint136"
base_text int136 = "int136"
base_text uint144 = "uint144"
base_text int144 = "int144"
base_text uint152 = "uint152"
base_text int152 = "int152"
base_text uint160 = "uint160"
base_text int160 = "int160"
base_text uint168 = "uint168"
base_text int168 = "int168"
base_text uint176 = "uint176"
base_text int176 = "int176"
base_text uint184 = "uint184"
base_text int184 = "int184"
base_text uint192 = "uint192"
base_text int192 = "int192"
base_text uint200 = "uint200"
base_text int200 = "int200"
base_text uint208 = "uint208"
base_text int208 = "int208"
base_text uint216 = "uint216"
base_text int216 = "int216"
base_text uint224 = "uint224"
base_text int224 = "int224"
base_text uint232 = "uint232"
base_text int232 = "int232"
base_text uint240 = "uint240"
base_text int240 = "int240"
base_text uint248 = "uint248"
base_text int248 = "int248"
base_text uint256 = "uint256"
base_text int256 = "int256"
base_text string_type = "string"
base_text bool_type = "bool"
base_text bytes_type = "bytes"
base_text bytes32 = "bytes32"
base_text address = "address"
base_text func = "function"

unfoldable pub solidity_type_to_string : SolidityType → String
unfolding base_text
solidity_type_to_string t = if t.array then base_text t.ty <> "[]" else base_text t.ty

-- The cases of the switch over the type of one value, and of the first switch over the type of the
-- elements of an array, which has no case for the types of 24 bits.
pub data Kind : Type 0 where
  number address_kind bool_kind func_kind bytes32_kind dynamic_kind : Kind

unfoldable pub kind : ArgumentType → Kind
kind string_type = dynamic_kind
kind bool_type = bool_kind
kind bytes_type = dynamic_kind
kind bytes32 = bytes32_kind
kind address = address_kind
kind func = func_kind
kind _ = number

pub data ArrayCase : Type 0 where
  words heap unexpected : ArrayCase

unfoldable pub array_case : ArgumentType → ArrayCase
array_case uint24 = unexpected
array_case int24 = unexpected
array_case string_type = heap
array_case bytes_type = heap
array_case _ = words

-- The selector.
pub record Selector : Type 0 where
  pub name : Option String
  pub params : String
  pub param_types : List SolidityType

abbrev pub new_selector : Option String → Selector
new_selector name = record { name = name; params = ""; param_types = [] }

unfoldable pub add_type : SolidityType → Selector → Selector
unfolding solidity_type_to_string
add_type t s =
    let before = if ltb 0 (length s.param_types) then s.params <> "," else s.params in
    record s {
      params = before <> solidity_type_to_string t;
      param_types = s.param_types ++ (t ∷ []);
    }

unfoldable pub selector_to_string : Selector → String
selector_to_string s =
    let name : String = elim s.name [ none ↦ "" | some n ↦ n ] in name <> ("(" <> (s.params <> ")"))

-- `_build`; without a name it throws.
unfoldable pub build_selector : (String → List ℕ) → Option String → Selector → Option (List ℕ)
unfolding selector_to_string
build_selector keccak (some n) s =
    some (take 4 (keccak (selector_to_string (record s { name = some n }))))
build_selector keccak none s = elim s.name [
  | none ↦ none
  | some n ↦ some (take 4 (keccak (selector_to_string s)))
]
