-- ===== src/LockList.antt =====
-- The list that requests keep their node ids and transactions in: the class `List` of
-- src/transaction/List.js. It can be locked, and it has an index that goes round. An element is an
-- option, where `none` is null or a hole of the array, and the index is `none` once it is NaN, which
-- `advance` makes of it in an empty list. `clone` shares its array with the original; a list here is
-- the value at one moment.
pub mod Elements
pub mod Round
mod Tests
use u2u_sdk_js.Common.{
  ℕ, zero, suc, ◌+◌, ◌%◌, Bool, true, false, Option, none, some, List, [], ◌∷◌, ◌++◌, length,
  get_or, ◌==◌, ◌||◌, if◌then◌else◌,
}

pub record LockList {ℓ} (A : Type ℓ) : Type ℓ where
  pub list : List (Option A)
  pub locked : Bool
  pub index : Option ℕ

-- A method that can throw: the error is `list is locked`, and the list stays as it was.
pub data Locked {ℓ} (A : Type ℓ) : Type ℓ where
  done : LockList A → Locked A
  list_is_locked : Locked A

-- `(this.index + 1) % this.list.length`, where a remainder by 0 is NaN.
abbrev pub next_index : Option ℕ → ℕ → Option ℕ
next_index none n = none
next_index (some i) n = if n == 0 then none else some ((i + 1) % n)

module _ {ℓ} {A : Type ℓ} where
  abbrev pub new : LockList A
  new = record { list = []; locked = false; index = some 0 }

  unfoldable pub set_list : List (Option A) → LockList A → Locked A
  set_list xs l = if l.locked then list_is_locked else done (record l { list = xs; index = some 0 })

  unfoldable pub push : List (Option A) → LockList A → Locked A
  push items l = if l.locked then list_is_locked else done (record l { list = l.list ++ items })

  unfoldable pub set_locked : LockList A → LockList A
  set_locked l = record l { locked = true }

  unfoldable pub clear : LockList A → LockList A
  clear l = record l { list = []; index = some 0 }

  -- Out of range an array reads as undefined.
  unfoldable pub get : LockList A → ℕ → Option A
  get l i = get_or l.list i none

  -- A write to an array: out of range, holes fill the gap.
  unfoldable pub write : List (Option A) → ℕ → Option A → List (Option A)
  write [] zero x = x ∷ []
  write [] (suc i) x = none ∷ write [] i x
  write (_ ∷ xs) zero x = x ∷ xs
  write (y ∷ xs) (suc i) x = y ∷ write xs i x

  unfoldable pub set : LockList A → ℕ → Option A → LockList A
  set l i x =
      if i == length l.list
      then record l { list = l.list ++ (x ∷ []) }
      else record l { list = write l.list i x }

  abbrev pub is_null : Option A → Bool
  is_null none = true
  is_null (some _) = false

  unfoldable pub set_if_absent : LockList A → ℕ → (Unit {0} → Option A) → LockList A
  set_if_absent l i lambda =
      if i == length l.list || is_null (get_or l.list i none) then set l i (lambda tt) else l

  -- The old index, and the list with the next one.
  unfoldable pub advance : LockList A → Option ℕ × LockList A
  advance l = (l.index, record l { index = next_index l.index (length l.list) })

  -- `get` at an index that may be NaN.
  abbrev pub get_at : LockList A → Option ℕ → Option A
  get_at l none = none
  get_at l (some i) = get l i

  unfoldable pub next : LockList A → Option A × LockList A
  unfolding advance
  next l = (get_at l (advance l).0, (advance l).1)

  unfoldable pub current : LockList A → Option A
  current l = get_at l l.index

  unfoldable pub is_empty : LockList A → Bool
  is_empty l = length l.list == 0

  unfoldable pub clone : LockList A → LockList A
  clone l = record new { list = l.list; locked = l.locked }
