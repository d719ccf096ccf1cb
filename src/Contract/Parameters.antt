-- ===== src/Contract/Parameters.antt =====
-- The class of src/contract/ContractFunctionParameters.js with `argumentToBytes`. The encoding of numbers
-- by `defaultAbiCoder` is a parameter, from the text of the type; it throws for a number that does not
-- fit. A string is its UTF-8 bytes. An error that is thrown is `none`; a parameter that does not match
-- its type, which no method adds, is one too.
pub mod Layout
pub mod Calls
pub mod Arrays
use Prim.Native.String.{String}
use u2u_sdk_js.Common.{
  ℕ, zero, suc, ◌+◌, ◌-◌, ◌*◌, ◌/◌, ◌%◌, ◌^◌, Bool, true, false, Option, none, some, List, [], ◌∷◌,
  ◌++◌, length, map_all, replicate, drop, ◌==◌, ◌&&◌, ◌||◌, ◌>>=◌, ◌>>◌, guard, ltb, if◌then◌else◌,
}
use u2u_sdk_js.Common.Int.{ℤ}
use u2u_sdk_js.Encoding.Hex.{decode}
use u2u_sdk_js.Contract.Bytes.{set_bytes, set_uint32}
use u2u_sdk_js.Contract.Types.{
  ArgumentType, SolidityType, string_type, bool_type, bytes_type, bytes32, address, func, base_text,
  Kind, number, address_kind, bool_kind, func_kind, bytes32_kind, dynamic_kind, kind, ArrayCase,
  words, heap, unexpected, array_case, Selector, new_selector, add_type, build_selector,
}

pub data Value : Type 0 where
  number_value : ℤ → Value
  bytes_value : List ℕ → Value
  bool_value : Bool → Value

pub data Param : Type 0 where
  one : Value → Param
  many : List Value → Param

pub record Argument : Type 0 where
  pub dynamic : Bool
  pub value : List ℕ

pub record Parameters : Type 0 where
  pub selector : Selector
  pub arguments : List Argument

abbrev pub new_parameters : Parameters
new_parameters = record { selector = new_selector none; arguments = [] }

abbrev pub zeros : ℕ → List ℕ
zeros n = replicate n 0

-- The case of bytes and strings: the length, then the bytes, filled up to whole words.
unfoldable pub padded_length : ℕ → ℕ
padded_length n = if n % 32 == 0 then n / 32 * 32 + 32 else (n / 32 + 1) * 32 + 32

unfoldable pub dynamic_bytes : List ℕ → Option (List ℕ)
unfolding padded_length
dynamic_bytes par = do
  value ← set_bytes (zeros (padded_length (length par))) 32 par
  set_uint32 value 28 (length par)

abbrev pub bit : Bool → ℕ
bit true = 1
bit false = 0

-- The length of all values together.
abbrev pub total_length : List (List ℕ) → ℕ
total_length [] = 0
total_length (v ∷ vs) = length v + total_length vs

-- The loop over the values of an array: words one after the other, or offsets and a heap.
unfoldable pub put_words : ℕ → List (List ℕ) → List ℕ → Option (List ℕ)
put_words i [] buffer = some buffer
put_words i (v ∷ vs) buffer = do b ← set_bytes buffer (i * 32 + 32) v; put_words (suc i) vs b

unfoldable pub put_heap : ℕ → ℕ → List (List ℕ) → List ℕ → Option (List ℕ)
put_heap i offset [] buffer = some buffer
put_heap i offset (v ∷ vs) buffer = do
  b ← set_uint32 buffer ((i + 1) * 32 + 28) offset
  c ← set_bytes b (offset % 2 ^ 32 + 32) v
  put_heap (suc i) (offset + length v) vs c

-- `reduce` throws for an empty array.
abbrev pub not_empty : List (List ℕ) → Option (Unit {0})
not_empty [] = none
not_empty (_ ∷ _) = some tt

unfoldable pub array_bytes : ArrayCase → List (List ℕ) → Option (List ℕ)
unfolding put_words put_heap
array_bytes words values = do
  not_empty values
  b ← set_uint32 (zeros (total_length values + 32)) 28 (length values)
  put_words 0 values b
array_bytes heap values = do
  not_empty values
  b ← set_uint32 (zeros (length values * 32 + total_length values + 32)) 28 (length values)
  put_heap 0 (32 * length values) values b
array_bytes unexpected values = none

abbrev pub bytes_values : List (List ℕ) → List Value
bytes_values [] = []
bytes_values (v ∷ vs) = bytes_value v ∷ bytes_values vs

abbrev pub number_values : List ℤ → List Value
number_values [] = []
number_values (n ∷ ns) = number_value n ∷ number_values ns

abbrev pub all_32 : List (List ℕ) → Bool
all_32 [] = true
all_32 (v ∷ vs) = length v == 32 && all_32 vs

-- The text of an address has 40 characters, or 42 with its prefix.
unfoldable pub address_bytes : List ℕ → Option (List ℕ)
address_bytes text = do
  guard (length text == 40 || length text == 42)
  some (if length text == 40 then decode text else decode (drop 2 text))

module _ (abi_encode : String → ℤ → Option (List ℕ)) where
  -- The second switch, for one value.
  unfoldable pub value_to_bytes : String → Kind → Value → Option (List ℕ)
  unfolding dynamic_bytes
  value_to_bytes text number (number_value n) = abi_encode text n
  value_to_bytes text address_kind (bytes_value b) = set_bytes (zeros 32) (32 - 20) b
  value_to_bytes text bool_kind (bool_value b) = set_bytes (zeros 32) 31 (bit b ∷ [])
  value_to_bytes text func_kind (bytes_value b) = set_bytes (zeros 32) (32 - 24) b
  value_to_bytes text bytes32_kind (bytes_value b) = set_bytes (zeros 32) 0 b
  value_to_bytes text dynamic_kind (bytes_value b) = dynamic_bytes b
  value_to_bytes text _ _ = none

  unfoldable pub argument_to_bytes : SolidityType → Param → Option (List ℕ)
  unfolding value_to_bytes array_bytes kind array_case base_text
  argument_to_bytes t (one v) =
      if t.array then none else value_to_bytes (base_text t.ty) (kind t.ty) v
  argument_to_bytes t (many vs) =
      if t.array
      then (map_all (value_to_bytes (base_text t.ty) (kind t.ty)) vs
          >>= array_bytes (array_case t.ty))
      else none

  -- The type is added to the selector, and the bytes to the arguments.
  unfoldable pub add_param : SolidityType → Param → Bool → Parameters → Option Parameters
  unfolding argument_to_bytes add_type
  add_param t p dynamic s = do
    value ← argument_to_bytes t p
    some (record {
      selector = add_type t s.selector;
      arguments = s.arguments ++ (record { dynamic = dynamic; value = value } ∷ []);
    })

  -- The methods; those of numbers are `addInt8` to `addUint256Array`.
  unfoldable pub add_string : List ℕ → Parameters → Option Parameters
  unfolding add_param
  add_string v = add_param (record { ty = string_type; array = false }) (one (bytes_value v)) true

  unfoldable pub add_string_array : List (List ℕ) → Parameters → Option Parameters
  unfolding add_param
  add_string_array vs =
      add_param (record { ty = string_type; array = true }) (many (bytes_values vs)) true

  unfoldable pub add_bytes : List ℕ → Parameters → Option Parameters
  unfolding add_param
  add_bytes v = add_param (record { ty = bytes_type; array = false }) (one (bytes_value v)) true

  unfoldable pub add_bytes_array : List (List ℕ) → Parameters → Option Parameters
  unfolding add_param
  add_bytes_array vs =
      add_param (record { ty = bytes_type; array = true }) (many (bytes_values vs)) true

  unfoldable pub add_bytes32 : List ℕ → Parameters → Option Parameters
  unfolding add_param
  add_bytes32 v s = do
    guard (length v == 32)
    add_param (record { ty = bytes32; array = false }) (one (bytes_value v)) false s

  unfoldable pub add_bytes32_array : List (List ℕ) → Parameters → Option Parameters
  unfolding add_param
  add_bytes32_array vs s = do
    guard (all_32 vs)
    add_param (record { ty = bytes32; array = true }) (many (bytes_values vs)) true s

  unfoldable pub add_bool : Bool → Parameters → Option Parameters
  unfolding add_param
  add_bool v = add_param (record { ty = bool_type; array = false }) (one (bool_value v)) false

  unfoldable pub add_number : ArgumentType → ℤ → Parameters → Option Parameters
  unfolding add_param
  add_number t n = add_param (record { ty = t; array = false }) (one (number_value n)) false

  unfoldable pub add_number_array : ArgumentType → List ℤ → Parameters → Option Parameters
  unfolding add_param
  add_number_array t ns = add_param (record { ty = t; array = true }) (many (number_values ns)) true

  unfoldable pub add_address : List ℕ → Parameters → Option Parameters
  unfolding add_param
  add_address text s = do
    b ← address_bytes text
    add_param (record { ty = address; array = false }) (one (bytes_value b)) false s

  unfoldable pub add_address_array : List (List ℕ) → Parameters → Option Parameters
  unfolding add_param
  add_address_array texts s = do
    bs ← map_all address_bytes texts
    add_param (record { ty = address; array = true }) (many (bytes_values bs)) true s

  unfoldable pub add_function :
      (String → List ℕ) → List ℕ → Selector → Parameters → Option Parameters
  unfolding add_param
  add_function keccak text f s = do
    let a = decode text
    h ← build_selector keccak none f
    guard (length a == 20)
    p ← set_bytes (zeros 24) 0 a
    q ← set_bytes p 20 h
    add_param (record { ty = func; array = false }) (one (bytes_value q)) false s

-- `_build`: the length, the selector, and the loop over the arguments.
abbrev pub heap_length : List Argument → ℕ
heap_length [] = 0
heap_length (a ∷ rest) = (if a.dynamic then length a.value else 0) + heap_length rest

unfoldable pub put_arguments : ℕ → ℕ → ℕ → List Argument → List ℕ → Option (List ℕ)
put_arguments name_offset i offset [] buffer = some buffer
put_arguments name_offset i offset (a ∷ rest) buffer =
    let in_heap : Option (List ℕ) = do
      b ← set_uint32 buffer (name_offset + i * 32 + 28) offset
      set_bytes b (offset % 2 ^ 32 + name_offset) a.value
    in let placed : Option (List ℕ) =
        if a.dynamic then in_heap else set_bytes buffer (name_offset + i * 32) a.value in
      placed
      >>= put_arguments name_offset (suc i) (if a.dynamic then offset + length a.value else offset)
          rest

unfoldable pub build : (String → List ℕ) → Option String → Parameters → Option (List ℕ)
unfolding put_arguments
build keccak none s =
    put_arguments 0 0 (32 * length s.arguments) s.arguments
      (zeros (length s.arguments * 32 + heap_length s.arguments + 0))
build keccak (some name) s = do
  h ← build_selector keccak (some name) s.selector
  b ← set_bytes (zeros (length s.arguments * 32 + heap_length s.arguments + 4)) 0 h
  put_arguments 4 0 (32 * length s.arguments) s.arguments b
