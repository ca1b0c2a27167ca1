-- ===== src/Libgen/TextMap.antt =====
-- A std::map from texts, as the list of its entries: `find`, `insert`, which leaves a key that is
-- there already as it is, and `erase` of a key.
use ozonebase.Prelude.{
  ℕ, ◌≡◌, refl, Bool, true, false, List, [], ◌∷◌, Option, none, some, arith, if◌then◌else◌,
}
use ozonebase.Libgen.Text.{same, same_sound, same_self}

module _ {ℓ} {A : Type ℓ} where
  unfoldable pub find : List ℕ → List (List ℕ × A) → Option A
  find key [] = none
  find key (entry ∷ entries) =
      let later = find key entries in if same entry.0 key then some (entry.1) else later

  unfoldable pub has : List ℕ → List (List ℕ × A) → Bool
  has key [] = false
  has key (entry ∷ entries) =
      let later = has key entries in if same entry.0 key then true else later

  unfoldable pub insert : List ℕ → A → List (List ℕ × A) → List (List ℕ × A)
  insert key value [] = (key, value) ∷ []
  insert key value (entry ∷ entries) =
      let later = insert key value entries in
      if same entry.0 key then entry ∷ entries else entry ∷ later

  unfoldable pub erase : List ℕ → List (List ℕ × A) → List (List ℕ × A)
  erase key [] = []
  erase key (entry ∷ entries) =
      let later = erase key entries in if same entry.0 key then entries else entry ∷ later

  -- The first of two, where there is one.
  abbrev pub or_else : Option A → Option A → Option A
  or_else none other = other
  or_else (some value) other = some value

  pub find-insert :
      (key other : List ℕ) (value : A) (entries : List (List ℕ × A))
      → find other (insert key value entries)
        ≡ or_else (find other entries) (if same key other then some value else none)
  unfolding find insert
  find-insert key other value [] = ground arith
  find-insert key other value (entry ∷ entries) = ground (
    arith,
    find-insert key other value entries,
    same_sound entry.0 key,
    same_sound entry.0 other,
    same_sound key other,
    same_self key,
  )

  abbrev pub is_some : Option A → Bool
  is_some none = false
  is_some (some value) = true

  pub has-find :
      (key : List ℕ) (entries : List (List ℕ × A)) → has key entries ≡ is_some (find key entries)
  unfolding find has
  has-find key [] = refl
  has-find key (entry ∷ entries) = ground (arith, has-find key entries)
