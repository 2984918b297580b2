-- ===== src/Storage/Database/ListStore.antt =====
-- Sorted lists keep the laws of the database, so that the laws can be met.
use qonduit.Common.{◌≡◌, refl, List, [], ◌∷◌, reverse, Bool, true, false, if◌then◌else◌}
use qonduit.Bytes.{Bytes}
use qonduit.Storage.Keys.{Entry, ascending, value_at, set_value, from_key, up_to_key}
use qonduit.Storage.Keys.Order.{set_value-ascending}
use qonduit.Storage.Database.{
  Cf, cf_eq, Write, Mode, start, end, forward, backward, after_writes, Database, IsLawful,
}

abbrev Sorted : Type 0
Sorted = (es : List Entry) × (ascending es ≡ true)

set_sorted : Bytes → Bytes → Sorted → Sorted
set_sorted k v (es, h) = (set_value k v es, set_value-ascending k v es h)

abbrev Lists : Type 0
Lists = Cf → Sorted

choose : Bool → Sorted → Sorted → Sorted
choose true x y = x
choose false x y = y

put_list : Lists → Cf → Bytes → Bytes → Lists
put_list s cf k v c = choose (cf_eq cf c) (set_sorted k v (s c)) (s c)

write_list : Lists → List Write → Lists
write_list s [] = s
write_list s (w ∷ ws) = write_list (put_list s w.cf w.key w.value) ws

items : List Entry → Mode → List Entry
items es start = es
items es end = reverse es
items es (forward k) = from_key k es
items es (backward k) = reverse (up_to_key k es)

unfoldable pub list_database : Database
unfolding put_list write_list items ascending choose set_sorted
list_database = record {
  Store = Lists;
  new = λ c. ([], refl);
  put_cf = put_list;
  get_cf = λ s c k. value_at k (s c).0;
  write = write_list;
  iterator_cf = λ s c m. items (s c).0 m;
}

choose-list :
    (b : Bool) (k v : Bytes) (x : Sorted)
    → (choose b (set_sorted k v x) x).0 ≡ (if b then set_value k v x.0 else x.0)
unfolding choose set_sorted
choose-list true k v (es, h) = refl
choose-list false k v x = refl

write_list-after :
    (s : Lists) (ws : List Write) (c : Cf) → (write_list s ws c).0 ≡ after_writes c ws (s c).0
unfolding write_list after_writes put_list
write_list-after s [] c = refl
write_list-after s (w ∷ ws) c = rw (
  write_list-after (put_list s w.cf w.key w.value) ws c,
  choose-list (cf_eq w.cf c) w.key w.value (s c),
)

pub list_database-IsLawful : IsLawful list_database
unfolding list_database
list_database-IsLawful = record {
  new_empty = λ c. refl;
  sorted = λ s c. (s c).1;
  get_iterator = λ s c k. refl;
  from_end = λ s c. refl;
  from_forward = λ s c k. refl;
  from_backward = λ s c k. refl;
  after_put = λ s cf c k v. choose-list (cf_eq cf c) k v (s c);
  after_write = λ s ws c. write_list-after s ws c;
}
