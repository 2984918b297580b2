-- ===== src/Query/Rest/Endpoints.antt =====
-- What the search for an identity answers, and the lists of assets of an entity.
use qonduit.Common.{
  ℕ, ◌≤◌, ◌≡◌, ◌≢◌, refl, ap, ◌∙◌, List, [], ◌∷◌, ◌++◌, All, true, false, ◌==◌, ==_ne, Bool, ◌&&◌,
  leb, ltb, length, some, arith,
}
use qonduit.Bytes.{Bytes, IsBytes}
use qonduit.Core.Identity.{is_ascii_uppercase, encode_base26, decode_base26}
use qonduit.Core.Identity.Digits.{IsUpper, bytes_eq_refl}
use qonduit.Core.Identity.RoundTrip.{decode_base26-encode_base26}
use qonduit.Core.Identity.Shape.{encode_base26_shape}
use qonduit.Storage.Keys.{value_at}
use qonduit.Storage.Keys.Order.{value_at-set_value}
use qonduit.Storage.Database.{Database, IsLawful, cf_entity, start}
use qonduit.Storage.Warm
use qonduit.Storage.Warm.Scans
use qonduit.Query.Values.{External}
use qonduit.Query.Texts.Trimming.{trim-around}
use qonduit.Query.Texts.{all_chars, is_ascii_digit, is_whitespace, trim}
use qonduit.Query.Rest.{
  json, raw, json_or_404, get_entity, or_bad_request, assets_of_entity, get_owned_assets,
  get_possessed_assets,
}
use qonduit.Query.Rest.Search.{
  search, search_trimmed, search_hash, search_prefix, search_identity, found,
}

-- A character that is upper case is neither a digit, so a text that begins with one is no number.
upper-no_digit : (c : ℕ) → is_ascii_uppercase c ≡ true → is_ascii_digit c ≡ false
unfolding is_ascii_uppercase is_ascii_digit
upper-no_digit c h = ground arith

all_upper-no_digits :
    (c : ℕ) (cs : Bytes)
    → all_chars is_ascii_uppercase (c ∷ cs) ≡ true
    → all_chars is_ascii_digit (c ∷ cs) ≡ false
unfolding all_chars
all_upper-no_digits c cs h = ground (arith, upper-no_digit c)

all_upper : (s : Bytes) → All IsUpper s → all_chars is_ascii_uppercase s ≡ true
unfolding all_chars is_ascii_uppercase
all_upper [] h = refl
all_upper (c ∷ cs) (u, us) = ground (arith, all_upper cs us)

-- A letter is above 13 and 32 and below all other white space.
upper-no_blank : (c : ℕ) → IsUpper c → is_whitespace c ≡ false
unfolding is_whitespace is_ascii_uppercase
upper-no_blank c u =
    let least : 65 ≤ c = ground arith in
    let greatest : c ≤ 90 = ground arith in
    let unequal : (n : ℕ) → c ≢ n → (c == n) ≡ false = λ n ne. ==_ne c n ne in
    let low : leb c 13 ≡ false = ground arith in
    let middle : leb 0x2000 c ≡ false = ground arith in
    rw
      (
        low,
        and_false (leb 9 c),
        unequal 32 (omega arith),
        unequal 0x85 (omega arith),
        unequal 0xA0 (omega arith),
        unequal 0x1680 (omega arith),
        middle,
        unequal 0x2028 (omega arith),
        unequal 0x2029 (omega arith),
        unequal 0x202F (omega arith),
        unequal 0x205F (omega arith),
        unequal 0x3000 (omega arith),
      )
      refl
  where
    and_false : (b : Bool) → (b && false) ≡ false
    and_false true = refl
    and_false false = refl

upper-no_blanks : (s : Bytes) → All IsUpper s → All (λ c. is_whitespace c ≡ false) s
upper-no_blanks [] h = tt
upper-no_blanks (c ∷ cs) (u, us) = (upper-no_blank c u, upper-no_blanks cs us)

get_entity-put_entity :
    (db : Database) (laws : IsLawful db) (key bytes : Bytes) (s : db.Store)
    → Warm.get_entity db key (Warm.put_entity db key bytes s) ≡ some bytes
unfolding Warm.get_entity Warm.put_entity
get_entity-put_entity db laws key bytes s =
    laws.get_iterator (db.put_cf s cf_entity key bytes) cf_entity key
    ∙ ap (value_at key) (laws.after_put s cf_entity cf_entity key bytes)
    ∙ value_at-set_value key key bytes (db.iterator_cf s cf_entity start)
    ∙ rw (bytes_eq_refl key) refl

module _ (db : Database) (lib : External) where
  -- The full identity of an entity whose record parses is none of what the search tries before.
  identity_lem :
      (q key bytes : Bytes) (v : lib.Value) (s : db.Store)
      → all_chars is_ascii_uppercase q ≡ true
      → length q ≡ 60
      → decode_base26 lib.k12 q ≡ some key
      → Warm.get_entity db key s ≡ some bytes
      → lib.from_slice bytes ≡ some v
      → search_trimmed db lib q s ≡ json (found db lib (v ∷ []))
  unfolding search_trimmed search_hash search_prefix search_identity
  identity_lem [] key bytes v s u n k e r = absurd (omega arith)
  identity_lem (c ∷ cs) key bytes v s u n k e r =
      let q : Bytes = c ∷ cs in
      let no_digits = all_upper-no_digits c cs u in
      let n64 : (length q == 64) ≡ false = ground arith in
      let n60 : (length q == 60) ≡ true = ground arith in
      let at_least : leb 4 (length q) ≡ true = ground arith in
      let below : ltb (length q) 60 ≡ false = ground arith in
      rw (no_digits, n64, at_least, below, n60, u, k, e, r) refl

  -- An identity of a stored entity is found, white space around it left away.
  identity-found :
      (key bytes before after : Bytes) (v : lib.Value) (s : db.Store)
      → IsBytes key
      → length key ≡ 32
      → Warm.get_entity db key s ≡ some bytes
      → lib.from_slice bytes ≡ some v
      → All (λ c. is_whitespace c ≡ true) before
      → All (λ c. is_whitespace c ≡ true) after
      → search db lib (before ++ (encode_base26 lib.k12 key ++ after)) s
        ≡ json (found db lib (v ∷ []))
  unfolding search
  identity-found key bytes before after v s b l there reads blank blank' =
      let id = encode_base26 lib.k12 key in
      let (size, upper) = encode_base26_shape lib.k12 key in
      let trimmed : trim (before ++ (id ++ after)) ≡ id =
        trim-around before id after (omega arith) (upper-no_blanks id upper) blank blank' in
      let letters : all_chars is_ascii_uppercase id ≡ true = all_upper id upper in
      ap (λ q. search_trimmed db lib q s) trimmed
      ∙ identity_lem id key bytes v s letters size (decode_base26-encode_base26 lib.k12 key b l)
          there reads

  -- An entity that was stored under a key of 32 bytes, with a text that parses, is found by its
  -- identity: the search for the identity, with white space around it or not, answers with the
  -- parsed value as its one result, and the request of the entity with the stored text.
  pub search-put_entity :
      (laws : IsLawful db) (key bytes before after : Bytes) (v : lib.Value) (s : db.Store)
      → IsBytes key
      → length key ≡ 32
      → lib.from_slice bytes ≡ some v
      → All (λ c. is_whitespace c ≡ true) before
      → All (λ c. is_whitespace c ≡ true) after
      → (search db lib
            (before ++ (encode_base26 lib.k12 key ++ after))
            (Warm.put_entity db key bytes s)
          ≡ json
              (lib.object (("type", lib.literal "entity") ∷ ("results", lib.array (v ∷ [])) ∷ [])))
        × (get_entity db lib (encode_base26 lib.k12 key) (Warm.put_entity db key bytes s)
            ≡ raw bytes)
  unfolding get_entity or_bad_request json_or_404
  search-put_entity laws key bytes before after v s b l reads blank blank' =
      let there = get_entity-put_entity db laws key bytes s in
      (
        identity-found key bytes before after v (Warm.put_entity db key bytes s) b l there reads
            blank blank',
        rw (decode_base26-encode_base26 lib.k12 key b l, there) refl,
      )

  -- An entity with an entry in the index of assets gets the same list for the assets that it owns
  -- and for those that it possesses.
  pub get_possessed_assets-get_owned_assets :
      (id key : Bytes) (i : ℕ) (is : List ℕ) (s : db.Store)
      → decode_base26 lib.k12 id ≡ some key
      → Scans.get_assets_for_entity db key s ≡ i ∷ is
      → get_possessed_assets db lib id s ≡ get_owned_assets db lib id s
  unfolding get_possessed_assets get_owned_assets or_bad_request assets_of_entity
  get_possessed_assets-get_owned_assets id key i is s e indexed = rw (e, indexed) refl
