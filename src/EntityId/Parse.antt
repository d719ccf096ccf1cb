-- ===== src/EntityId/Parse.antt =====
-- Reading and writing entity ids: `fromStringSplitter`, `fromString`, `toStringWithChecksum` and
-- `validateChecksum` of src/EntityIdHelper.js, and the text `shard.realm.num` that ids are printed as.
pub mod Split
pub mod Mistype
use u2u_sdk_js.Common.{
  ℕ, suc, ◌+◌, ◌^◌, ◌<◌, ◌≡◌, ◌≢◌, Bool, true, false, Option, none, some, List, [], ◌∷◌, ◌++◌,
  length, leb, ◌&&◌, ◌||◌, ◌==◌, if◌then◌else◌,
}
use mathlib.Core.Option
use u2u_sdk_js.Common.Int.{ℤ, pos}
use u2u_sdk_js.EntityId.Id.{EntityId}
use u2u_sdk_js.EntityId.Checksum.{is_digit, checksum}

-- The class `[a-fA-F0-9]`.
abbrev pub is_hex : ℕ → Bool
is_hex c = leb b'a' c && leb c b'f' || leb b'A' c && leb c b'F' || is_digit c

-- The class `[a-z]`.
abbrev pub is_lower : ℕ → Bool
is_lower c = leb b'a' c && leb c b'z'

-- A greedy run of a class: the longest prefix of characters that pass, and what follows it.
unfoldable pub span : (ℕ → Bool) → List ℕ → List ℕ × List ℕ
span p [] = ([], [])
span p (c ∷ cs) = let rest = span p cs in if p c then (c ∷ rest.0, rest.1) else ([], c ∷ cs)

abbrev pub all : (ℕ → Bool) → List ℕ → Bool
all p [] = true
all p (c ∷ cs) = p c && all p cs

abbrev pub is_empty : List ℕ → Bool
is_empty [] = true
is_empty (_ ∷ _) = false

abbrev pub not_empty : List ℕ → Bool
not_empty xs = if is_empty xs then false else true

pub record Parts : Type 0 where
  pub shard : List ℕ
  pub realm : List ℕ
  pub num_or_hex : List ℕ
  pub checksum : Option (List ℕ)

-- `(?:-([a-z]{5}))?$`: the outer option says whether it matches, the inner one is group 4.
unfoldable pub match_suffix : List ℕ → Option (Option (List ℕ))
match_suffix [] = some none
match_suffix (c ∷ cs) =
    if c == b'-' && (length cs == 5 && all is_lower cs) then some (some cs) else none

-- `\.([a-fA-F0-9]+)`: group 3 and what follows it.
unfoldable pub match_num : List ℕ → Option (List ℕ × List ℕ)
match_num [] = none
match_num (c ∷ cs) =
    let num = span is_hex cs in if c == b'.' && not_empty num.0 then some (num.0, num.1) else none

-- `\.(\d+)` and `match_num`: groups 2 and 3, and what follows them.
unfoldable pub match_realm : List ℕ → Option (List ℕ × List ℕ × List ℕ)
match_realm [] = none
match_realm (c ∷ cs) =
    let realm = span is_digit cs in
    if c == b'.' && not_empty realm.0
    then elim (match_num realm.1) [ none ↦ none | some (num, rest) ↦ some (realm.0, num, rest) ]
    else none

-- The result of `fromStringSplitter` from the four groups.
abbrev pub short_parts : List ℕ → Option (List ℕ) → Parts
short_parts num sum = record {
  shard = b'0' ∷ [];
  realm = b'0' ∷ [];
  num_or_hex = num;
  checksum = sum;
}

abbrev pub full_parts : List ℕ → List ℕ → List ℕ → Option (List ℕ) → Parts
full_parts shard realm num sum = record {
  shard = shard;
  realm = realm;
  num_or_hex = num;
  checksum = sum;
}

-- `ENTITY_ID_REGEX` and `fromStringSplitter`; `none` is the error. The runs are greedy, and giving a
-- character back never helps: what follows a run cannot start with a character of its class. Where
-- the optional second group does not match, the text goes on with the suffix.
unfoldable pub split_rest : List ℕ → List ℕ → Option (List ℕ × List ℕ × List ℕ) → Option Parts
split_rest first rest none = Option.map (short_parts first) (match_suffix rest)
split_rest first _ (some (realm, num, rest)) =
    Option.map (full_parts first realm num) (match_suffix rest)

unfoldable pub split : List ℕ → Option Parts
split text =
    let first = span is_digit text in
    if not_empty first.0 then split_rest first.0 first.1 (match_realm first.1) else none

-- What the code asks of the Long library for the numbers of an id: decimal text, which
-- `Long.fromString` reads back in the range of a signed 64-bit number.
pub record LongText : Type 0 where
  pub to_text : ℤ → List ℕ
  pub from_text : List ℕ → ℤ
  pub from_text-to_text : (n : ℕ) → n < 2 ^ 63 → from_text (to_text (pos n)) ≡ pos n
  pub to_text_digits : (n : ℕ) → all is_digit (to_text (pos n)) ≡ true
  pub to_text_not_empty : (n : ℕ) → not_empty (to_text (pos n)) ≡ true

pub record Parsed : Type 0 where
  pub id : EntityId
  pub checksum : Option (List ℕ)

-- The error of `validateChecksum`, with the checksum that it expected.
pub data Validated : Type 0 where
  valid : Validated
  bad_entity_id : EntityId → List ℕ → List ℕ → Validated

abbrev pub list_eq : List ℕ → List ℕ → Bool
list_eq [] [] = true
list_eq [] (_ ∷ _) = false
list_eq (_ ∷ _) [] = false
list_eq (x ∷ xs) (y ∷ ys) = x == y && list_eq xs ys

module _ (long : LongText) where
  open long use {to_text, from_text}

  -- `fromString`. The tests with `Number.isNaN` are false on texts, and no group is null here.
  unfoldable pub from_string : List ℕ → Option Parsed
  from_string text = elim (split text) [
    | none ↦ none
    | some parts ↦ some (record {
      id = record {
        shard = from_text parts.shard;
        realm = from_text parts.realm;
        num = from_text parts.num_or_hex;
      };
      checksum = parts.checksum;
    })
  ]

  -- The template text that ids are printed as.
  unfoldable pub to_string : EntityId → List ℕ
  to_string i = to_text i.shard ++ (b'.' ∷ (to_text i.realm ++ (b'.' ∷ to_text i.num)))

  -- `toStringWithChecksum`; the client is its ledger id, and `none` is the error without one.
  unfoldable pub to_string_with_checksum : List ℕ → Option (List ℕ) → Option (List ℕ)
  to_string_with_checksum text none = none
  to_string_with_checksum text (some ledger) = some (text ++ (b'-' ∷ checksum ledger text))

  unfoldable pub validate_checksum : EntityId → Option (List ℕ) → Option (List ℕ) → Validated
  validate_checksum i none ledger = valid
  validate_checksum i (some sum) none = valid
  validate_checksum i (some sum) (some ledger) =
      let expected = checksum ledger (to_string i) in
      if list_eq sum expected then valid else bad_entity_id i sum expected
