-- ===== src/LockList/Elements.antt =====
-- Reading, writing and locking.
use u2u_sdk_js.Common.{
  ℕ, zero, suc, ◌≡◌, refl, true, Option, none, List, [], ◌∷◌, ◌++◌, length, get_or, ◌==◌, ◌&&◌, ◌↔◌,
  if◌then◌else◌, arith,
}
use u2u_sdk_js.LockList.{
  LockList, list_is_locked, set_list, push, set_locked, get, write, set, is_null, set_if_absent,
}

module _ {ℓ} {A : Type ℓ} where
  get_or-nil : (j : ℕ) → get_or {A = Option A} [] j none ≡ none
  get_or-nil zero = refl
  get_or-nil (suc j) = refl

  get_or-snoc :
      (xs : List (Option A)) (x : Option A) (j : ℕ)
      → get_or (xs ++ (x ∷ [])) j none ≡ (if length xs == j then x else get_or xs j none)
  get_or-snoc [] x zero = refl
  get_or-snoc [] x (suc j) = ground arith
  get_or-snoc (y ∷ xs) x zero = ground arith
  get_or-snoc (y ∷ xs) x (suc j) = ground (arith, get_or-snoc xs x j)

  get_or-write :
      (xs : List (Option A)) (i j : ℕ) (x : Option A)
      → get_or (write xs i x) j none ≡ (if i == j then x else get_or xs j none)
  unfolding write
  get_or-write [] zero zero x = refl
  get_or-write [] zero (suc j) x = ground arith
  get_or-write [] (suc i) zero x = ground arith
  get_or-write [] (suc i) (suc j) x = ground (arith, get_or-write [] i j x, get_or-nil j)
  get_or-write (y ∷ xs) zero zero x = refl
  get_or-write (y ∷ xs) zero (suc j) x = ground arith
  get_or-write (y ∷ xs) (suc i) zero x = ground arith
  get_or-write (y ∷ xs) (suc i) (suc j) x = ground (arith, get_or-write xs i j x)

  -- After `set` at an index, at the end or beyond it too, that index reads as the new element and
  -- every other index reads as before.
  pub get-set :
      (l : LockList A) (i j : ℕ) (x : Option A)
      → get (set l i x) j ≡ (if i == j then x else get l j)
  unfolding get set
  get-set l i j x = ground (arith, get_or-snoc l.list x j, get_or-write l.list i j x)

  get_or_end : (xs : List (Option A)) (i : ℕ) → i ≡ length xs → get_or xs i none ≡ none
  get_or_end [] i h = get_or-nil i
  get_or_end (x ∷ xs) zero h = absurd (omega arith)
  get_or_end (x ∷ xs) (suc i) h = get_or_end xs i (omega arith)

  -- `setIfAbsent` fills an index that reads as null with the value of the function, and changes no
  -- other index; an index that holds an element keeps it.
  pub get-set_if_absent :
      (l : LockList A) (i j : ℕ) (f : Unit {0} → Option A)
      → get (set_if_absent l i f) j ≡ (if i == j && is_null (get l i) then f tt else get l j)
  unfolding set_if_absent get
  get-set_if_absent l i j f = ground (arith, get-set l i j (f tt), get_or_end l.list i)

  -- Once the list is locked, and only then, `setList` and `push` are refused.
  pub locked_iff :
      (l : LockList A) (xs : List (Option A))
      → ((set_list xs l ≡ list_is_locked) ↔ (l.locked ≡ true))
        × ((push xs l ≡ list_is_locked) ↔ (l.locked ≡ true))
        × (push xs (set_locked l) ≡ list_is_locked)
  unfolding set_list push set_locked
  locked_iff l xs = ((ground arith, ground arith), (ground arith, ground arith), refl)
