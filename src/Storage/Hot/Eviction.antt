-- ===== src/Storage/Hot/Eviction.antt =====
-- What a lookup finds after an insertion, and which entry goes.
use qonduit.Common.{
  ℕ, ◌≤◌, ◌<◌, ◌≡◌, ◌↔◌, ◌⊎◌, refl, sym, subst, List, [], ◌∷◌, Bool, true, false, not, ◌&&◌, leb,
  length, Option, none, some, if◌then◌else◌, arith, ap, Bool-cases, Option-cases, inl, inr,
}
use qonduit.Bytes.{Bytes}
use qonduit.Storage.Hot.Maps.{
  distinct, lookup-insert, lookup-absent, contains_eq, lookup-remove, remove-distinct,
  insert-distinct,
}
use qonduit.Storage.Hot.{Cached, lookup, contains, remove, oldest, make_room, put}

-- Every entry of the map is from `t` or later.
abbrev pub AtLeast {ℓ} : {K : Type ℓ} → ℕ → List (K × Cached) → Type ℓ
AtLeast t [] = Unit
AtLeast t ((k, e) ∷ m) = (t ≤ e.cached_at) × AtLeast t m

AtLeast-trans {ℓ} :
    {K : Type ℓ} (s t : ℕ) (m : List (K × Cached)) → s ≤ t → AtLeast t m → AtLeast s m
AtLeast-trans s t [] h a = tt
AtLeast-trans s t ((k, e) ∷ m) h (b, bs) = (omega arith, AtLeast-trans s t m h bs)

module _ {K : Type 0} (key_eq : K → K → Bool)
    (eq_iff : (a b : K) → (key_eq a b ≡ true) ↔ (a ≡ b)) where
  pub make_room-distinct :
      (limit : ℕ) (k : K) (m : List (K × Cached))
      → distinct (contains key_eq) m ≡ true
      → distinct (contains key_eq) (make_room key_eq limit k m) ≡ true
  unfolding make_room
  make_room-distinct limit k m h = elim (Option-cases (oldest m)) [
    | inl empty ↦ ground (arith, empty)
    | inr ((j, e), found) ↦ ground (arith, found, remove-distinct key_eq eq_iff j m h)
  ]

  -- An insertion keeps the keys distinct.
  pub put-distinct :
      (limit now : ℕ) (k : K) (bytes : Bytes) (m : List (K × Cached))
      → distinct (contains key_eq) m ≡ true
      → distinct (contains key_eq) (put key_eq limit now k bytes m) ≡ true
  unfolding put
  put-distinct limit now k bytes m h =
      insert-distinct key_eq eq_iff k _ (make_room key_eq limit k m)
        (make_room-distinct limit k m h)

  -- The key that an insertion evicts: that of the oldest entry, if the map is full and the key new.
  unfoldable pub victim : ℕ → K → List (K × Cached) → Option K
  victim limit k m =
      if leb limit (length m) && not (contains key_eq k m)
      then elim (oldest m) [ none ↦ none | some p ↦ some p.0 ]
      else none

  make_room-victim :
      (limit : ℕ) (k : K) (m : List (K × Cached))
      → make_room key_eq limit k m
        ≡ elim (victim limit k m) [ none ↦ m | some j ↦ remove key_eq j m ]
  unfolding make_room victim
  make_room-victim limit k m = elim (Option-cases (oldest m)) [
    | inl empty ↦ ground (arith, empty)
    | inr ((j, e), found) ↦ ground (arith, found)
  ]

  lookup-put-victim :
      (limit now : ℕ) (k j : K) (bytes : Bytes) (m : List (K × Cached))
      → distinct (contains key_eq) m ≡ true
      → lookup key_eq j (put key_eq limit now k bytes m) ≡ (
          if key_eq k j
          then some (record { contents = bytes; cached_at = now })
          else elim (victim limit k m) [
            | none ↦ lookup key_eq j m
            | some v ↦ if key_eq v j then none else lookup key_eq j m
          ])
  unfolding put
  lookup-put-victim limit now k j bytes m h =
      rw
        (
          lookup-insert key_eq eq_iff k j (record { contents = bytes; cached_at = now })
              (make_room key_eq limit k m),
          make_room-victim limit k m,
        )
        (elim (Option-cases (victim limit k m)) [
          | inl kept ↦ rw kept
          | inr (v, gone) ↦ rw (gone, lookup-remove key_eq eq_iff v j m h)
        ])

  pub oldest-cases :
      (m : List (K × Cached))
      → distinct (contains key_eq) m ≡ true
      → (m ≡ [])
        ⊎ ((k : K) × (e : Cached) × (oldest m ≡ some (k, e))
            × (lookup key_eq k m ≡ some e)
            × AtLeast e.cached_at m)
  unfolding oldest lookup distinct
  oldest-cases [] d = inl refl
  oldest-cases ((k, e) ∷ m) d = elim (oldest-cases m (ground arith)) [
    | inl empty ↦ inr (
      k,
      e,
      rw empty,
      ground (arith, eq_iff k k),
      subst (AtLeast e.cached_at) (ap (◌∷◌ (k, e)) (sym empty)) (omega arith),
    )
    | inr (j, f, found, seen, low) ↦ elim (Bool-cases (leb e.cached_at f.cached_at)) [
      | inl mine ↦ inr (
        k,
        e,
        ground (arith, found),
        ground (arith, eq_iff k k),
        (omega arith, AtLeast-trans e.cached_at f.cached_at m (ground arith) low),
      )
      | inr theirs ↦ inr (
        j,
        f,
        ground (arith, found),
        ground (
          arith,
          eq_iff k j,
          contains_eq key_eq eq_iff k j m,
          lookup-absent key_eq eq_iff j m,
          seen,
        ),
        (ground arith, low),
      )
    ]
  ]

  -- An evicted entry was present, and no entry of the map was older.
  pub victim-oldest :
      (limit : ℕ) (k v : K) (m : List (K × Cached))
      → distinct (contains key_eq) m ≡ true
      → victim limit k m ≡ some v
      → (e : Cached) × (lookup key_eq v m ≡ some e) × AtLeast e.cached_at m
  unfolding victim oldest
  victim-oldest limit k v m d h = elim (oldest-cases m d) [
    | inl empty ↦ absurd (ground (arith, empty))
    | inr (j, e, found, seen, low) ↦
        let same : j ≡ v = ground (arith, found) in
        (e, subst (λ x. lookup key_eq x m ≡ some e) same seen, low)
  ]

  -- What a lookup finds once `evicted` is removed and the new entry is at its key.
  abbrev pub Finds : ℕ → ℕ → K → Bytes → List (K × Cached) → Option K → Type 0
  Finds limit now k bytes m evicted =
      (j : K)
      → lookup key_eq j (put key_eq limit now k bytes m) ≡ (
          if key_eq k j then some (record { contents = bytes; cached_at = now }) else elim evicted [
            | none ↦ lookup key_eq j m
            | some v ↦ if key_eq v j then none else lookup key_eq j m
          ])

  put-Finds :
      (limit now : ℕ) (k : K) (bytes : Bytes) (m : List (K × Cached)) (evicted : Option K)
      → distinct (contains key_eq) m ≡ true
      → victim limit k m ≡ evicted
      → Finds limit now k bytes m evicted
  put-Finds limit now k bytes m evicted d e =
      subst (Finds limit now k bytes m) e (λ j. lookup-put-victim limit now k j bytes m d)

  -- There is room for the key, or the map has no entry to evict.
  abbrev pub HasRoom : ℕ → K → List (K × Cached) → Type 0
  HasRoom limit k m = (length m < limit) ⊎ (contains key_eq k m ≡ true) ⊎ (m ≡ [])

  victim-cases :
      (limit : ℕ) (k : K) (m : List (K × Cached))
      → distinct (contains key_eq) m ≡ true
      → (HasRoom limit k m × (victim limit k m ≡ none))
        ⊎ ((limit ≤ length m)
            × (contains key_eq k m ≡ false)
            × ((v : K) × (victim limit k m ≡ some v)))
  unfolding victim
  victim-cases limit k m d = elim (Bool-cases (leb limit (length m))) [
    | inr few ↦ inl (inl (ground arith), rw few refl)
    | inl full ↦ elim (Bool-cases (contains key_eq k m)) [
      | inl there ↦ inl (inr (inl there), rw (full, there) refl)
      | inr new ↦ elim (oldest-cases m d) [
        | inl empty ↦ inl (inr (inr empty), rw (full, new, empty) (unfold oldest in refl))
        | inr (v, e, found, _, _) ↦ inr (ground arith, new, (v, rw (full, new, found) refl))
      ]
    ]
  ]

  -- After an insertion a lookup finds the new entry at its key. If the map was below its limit, had
  -- the key or was empty, it finds at every other key what it found before. Otherwise one key was
  -- evicted, which had an entry than which none of the map was older: the lookup finds nothing at
  -- this key, and at every other key what it found before.
  pub lookup-put :
      (limit now : ℕ) (k : K) (bytes : Bytes) (m : List (K × Cached))
      → distinct (contains key_eq) m ≡ true
      → (HasRoom limit k m × Finds limit now k bytes m none)
        ⊎ ((limit ≤ length m)
            × (contains key_eq k m ≡ false)
            × ((v : K) × (e : Cached) × (lookup key_eq v m ≡ some e)
                × AtLeast e.cached_at m
                × Finds limit now k bytes m (some v)))
  lookup-put limit now k bytes m d = elim (victim-cases limit k m d) [
    | inl (room, kept) ↦ inl (room, put-Finds limit now k bytes m none d kept)
    | inr (full, new, (v, evicted)) ↦
        let (e, seen, low) = victim-oldest limit k v m d evicted in
        inr (full, new, (v, e, seen, low, put-Finds limit now k bytes m (some v) d evicted))
  ]
