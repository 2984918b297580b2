-- ===== src/Storage/Hot/Maps.antt =====
-- The maps of the cache: lookups after an insertion or a removal, and keys that stay distinct.
use qonduit.Common.{
  ◌≡◌, ◌↔◌, refl, ap, List, [], ◌∷◌, Bool, true, false, not, ◌&&◌, ◌||◌, none, some, if◌then◌else◌,
  arith,
}
use qonduit.Storage.Hot.{Cached, lookup, contains, remove, insert}

-- No key twice.
unfoldable pub distinct {ℓ} :
    {K : Type ℓ} → (K → List (K × Cached) → Bool) → List (K × Cached) → Bool
distinct has [] = true
distinct has ((k, e) ∷ m) = not (has k m) && distinct has m

module _ {K : Type 0} (key_eq : K → K → Bool)
    (eq_iff : (a b : K) → (key_eq a b ≡ true) ↔ (a ≡ b)) where
  pub lookup-insert :
      (k j : K) (e : Cached) (m : List (K × Cached))
      → lookup key_eq j (insert key_eq k e m) ≡ (if key_eq k j then some e else lookup key_eq j m)
  unfolding lookup insert
  lookup-insert k j e [] = refl
  lookup-insert k j e ((i, f) ∷ m) =
      ground (arith, eq_iff i k, eq_iff k j, eq_iff i j, lookup-insert k j e m)

  pub lookup-absent :
      (k : K) (m : List (K × Cached)) → contains key_eq k m ≡ false → lookup key_eq k m ≡ none
  unfolding lookup contains
  lookup-absent k [] h = refl
  lookup-absent k ((i, f) ∷ m) h = ground (arith, lookup-absent k m)

  pub contains_eq :
      (j k : K) (m : List (K × Cached))
      → key_eq j k ≡ true
      → contains key_eq j m ≡ contains key_eq k m
  contains_eq j k m h = ap (λ x. contains key_eq x m) ((eq_iff j k).0 h)

  pub lookup-remove :
      (k j : K) (m : List (K × Cached))
      → distinct (contains key_eq) m ≡ true
      → lookup key_eq j (remove key_eq k m) ≡ (if key_eq k j then none else lookup key_eq j m)
  unfolding lookup remove distinct
  lookup-remove k j [] h = ground arith
  lookup-remove k j ((i, f) ∷ m) h = ground (
    arith,
    eq_iff i k,
    eq_iff k j,
    eq_iff i j,
    contains_eq i j m,
    lookup-absent j m,
    lookup-remove k j m,
  )

  contains-remove :
      (k j : K) (m : List (K × Cached))
      → contains key_eq j m ≡ false
      → contains key_eq j (remove key_eq k m) ≡ false
  unfolding contains remove
  contains-remove k j [] h = refl
  contains-remove k j ((i, f) ∷ m) h = ground (arith, contains-remove k j m)

  pub remove-distinct :
      (k : K) (m : List (K × Cached))
      → distinct (contains key_eq) m ≡ true
      → distinct (contains key_eq) (remove key_eq k m) ≡ true
  unfolding remove distinct
  remove-distinct k [] h = refl
  remove-distinct k ((i, f) ∷ m) h = ground (arith, contains-remove k i m, remove-distinct k m)

  contains-insert :
      (k j : K) (e : Cached) (m : List (K × Cached))
      → contains key_eq j (insert key_eq k e m) ≡ (key_eq k j || contains key_eq j m)
  unfolding contains insert
  contains-insert k j e [] = refl
  contains-insert k j e ((i, f) ∷ m) =
      ground (arith, eq_iff i k, eq_iff k j, eq_iff i j, contains-insert k j e m)

  pub insert-distinct :
      (k : K) (e : Cached) (m : List (K × Cached))
      → distinct (contains key_eq) m ≡ true
      → distinct (contains key_eq) (insert key_eq k e m) ≡ true
  unfolding insert distinct contains
  insert-distinct k e [] h = refl
  insert-distinct k e ((i, f) ∷ m) h =
      ground (arith, eq_iff i k, eq_iff k i, contains-insert k i e m, insert-distinct k e m)
