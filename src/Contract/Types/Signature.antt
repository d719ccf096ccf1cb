-- ===== src/Contract/Types/Signature.antt =====
-- The text of a selector of src/contract/ContractFunctionSelector.js.
use Prim.Native.String.{String, ◌++◌ as ◌<>◌}
use text.Mathlib.TextLemmas.{
  nil-append as nil_text, append-nil as text_nil, append_assoc as text_assoc,
}
use u2u_sdk_js.Common.{
  ◌≡◌, ◌<◌, refl, sym, ap, ◌∙◌, true, Option, none, some, List, [], ◌∷◌, length, length-append, ltb,
  arith, if◌then◌else◌,
}
use u2u_sdk_js.Contract.Types.{
  SolidityType, solidity_type_to_string, Selector, new_selector, add_type, selector_to_string,
}

-- Adding types one after the other.
abbrev pub add_types : List SolidityType → Selector → Selector
add_types [] s = s
add_types (t ∷ ts) s = add_types ts (add_type t s)

-- The texts of further types, each after a comma.
abbrev pub further : List SolidityType → String
further [] = ""
further (t ∷ ts) = "," <> (solidity_type_to_string t <> further ts)

add_types-params :
    (ts : List SolidityType) (s : Selector)
    → 0 < length s.param_types
    → ((add_types ts s).params ≡ s.params <> further ts) × ((add_types ts s).name ≡ s.name)
unfolding add_type
add_types-params [] s h = (sym (text_nil s.params), refl)
add_types-params (t ∷ ts) s h =
    let u = add_type t s in
    let n : 0 < length u.param_types = omega (arith, length-append s.param_types (t ∷ [])) in
    let b : ltb 0 (length s.param_types) ≡ true = ground (arith, h) in
    let p : u.params ≡ (s.params <> ",") <> solidity_type_to_string t =
      ap (λ k. (if k then s.params <> "," else s.params) <> solidity_type_to_string t) b in
    let (q, r) = add_types-params ts u n in
    (
      q
          ∙ ap (λ k. k <> further ts) p
          ∙ text_assoc (s.params <> ",") (solidity_type_to_string t) (further ts)
          ∙ text_assoc s.params "," (solidity_type_to_string t <> further ts),
      r,
    )

-- The text of a selector with a name to which types were added is the name, and in brackets the texts of
-- the types in their order with commas between them.
pub add_types-signature :
    (name : String) (t : SolidityType) (ts : List SolidityType)
    → selector_to_string (add_types (t ∷ ts) (new_selector (some name)))
      ≡ name <> ("(" <> ((solidity_type_to_string t <> further ts) <> ")"))
unfolding selector_to_string add_type
add_types-signature name t ts =
    let u = add_type t (new_selector (some name)) in
    let v = add_types ts u in
    let (p, q) = add_types-params ts u (omega arith) in
    let e : v.params ≡ solidity_type_to_string t <> further ts =
      p ∙ ap (λ k. k <> further ts) (nil_text (solidity_type_to_string t)) in
    let text : Option String → String → String = λ n params.
      let name : String = elim n [ none ↦ "" | some m ↦ m ] in name <> ("(" <> (params <> ")")) in
    ap (λ n. text n v.params) q ∙ ap (text (some name)) e
