-- ===== src/Ingestion/Decoders/LogEvents/Layouts.antt =====
-- Log events that are packed one behind the other, read back.
use qonduit.Common.{
  ℕ, zero, suc, ◌+◌, ◌≤◌, ◌<◌, ◌≡◌, refl, ap, sym, ◌∙◌, List, [], ◌∷◌, ◌++◌, false, none, some, ltb,
  length, map, All, arith, le→leb, lt→ltb, length-append, append_assoc,
}
use qonduit.Bytes.{Bytes, ok, to_le}
use qonduit.Bytes.Endian.{length-to_le}
use qonduit.Bytes.Slices.{read_le-word}
use qonduit.Bytes.Layout.{packed, slice-packed, read-packed, length-packed, sizes}
use qonduit.Ingestion.Decoders.Guards.{at_least_enough}
use qonduit.Ingestion.Decoders.LogEvents.{
  prefixed_size, unknown_size, data_size, event_header, next_event, parse_events, decode_log_events,
}
use qonduit.Ingestion.Decoders.LogEvents.Wire.{
  WireEvent, Size, size_of, HasSize, IsEvent, event_fields, event_bytes, decoded_event, wire, fixed,
  length_prefix, in_size_byte,
}

module _ (before rest : Bytes) (e : WireEvent) (v : IsEvent e) where
  fs : List Bytes
  fs = event_fields before e

  abbrev p : Bytes
  p = packed (event_fields before e) ++ rest

  abbrev a : ℕ
  a = length before

  long : length p ≡ a + 26 + length e.contents + length rest
  long = omega (
    sizes,
    length-append (packed (event_fields before e)) rest,
    length-packed (event_fields before e),
    v.reserved_length,
  )

  header_back : event_header p a ≡ ok (record (decoded_event e) { event_data = [] })
  unfolding event_header decoded_event
  header_back = rw (
    read-packed (event_fields before e) rest 4 e.tick 1 a refl (omega sizes) v.tick_lt,
    read-packed (event_fields before e) rest 4 e.tx_index 2 (a + 4) refl (omega sizes)
        v.tx_index_lt,
    read-packed (event_fields before e) rest 2 e.epoch 3 (a + 8) refl (omega sizes) v.epoch_lt,
    read-packed (event_fields before e) rest 8 e.amount 4 (a + 10) refl (omega sizes) v.amount_lt,
    read-packed (event_fields before e) rest 1 e.event_type 5 (a + 18) refl (omega sizes) v.type_lt,
  )

  -- The fields with the contents split behind their length.
  abbrev split_fields : ℕ → Bytes → List Bytes
  split_fields n text =
      before
      ∷ to_le 4 e.tick
      ∷ to_le 4 e.tx_index
      ∷ to_le 2 e.epoch
      ∷ to_le 8 e.amount
      ∷ to_le 1 e.event_type
      ∷ to_le 1 e.size_byte
      ∷ e.reserved
      ∷ to_le 2 n
      ∷ text
      ∷ []

  packed-split :
      (n : ℕ) (text : Bytes)
      → e.contents ≡ to_le 2 n ++ text
      → packed (event_fields before e) ≡ packed (split_fields n text)
  packed-split n text h = rw (h, append_assoc (to_le 2 n) text [])

  size_back :
      (s : Size)
      → HasSize s e
      → elim s [
        | fixed n ↦ ok (some n)
        | length_prefix ↦ prefixed_size p (a + 26)
        | in_size_byte ↦ unknown_size p a
      ]
        ≡ ok (some (length e.contents))
  unfolding HasSize prefixed_size unknown_size
  size_back (fixed n) h = ap (λ k. ok (some k)) (sym h)
  size_back length_prefix (n, text, lt, l, h) =
      let size : length e.contents ≡ n + 2 =
        omega (arith, ap length h, length-append (to_le 2 n) text, length-to_le 2 n) in
      rw
        (
          le→leb (a + 26 + 2) (length p) (omega (arith, long)),
          packed-split n text h,
          read-packed (split_fields n text) rest 2 n 8 (a + 26) refl
              (omega (sizes, v.reserved_length)) lt,
        )
        (ap (λ k. ok (some k)) (sym size))
  size_back in_size_byte (l, pos) =
      rw
        (
          lt→ltb (a + 19) (length p) (omega (arith, long)),
          read-packed (event_fields before e) rest 1 e.size_byte 6 (a + 19) refl (omega sizes)
              v.size_byte_lt,
          lt→ltb 0 e.size_byte pos,
        )
        (ap (λ k. ok (some k)) (sym l))

  data_size_lem :
      (q : Bytes) (b t : ℕ)
      → data_size q b t ≡ elim (size_of t) [
        | fixed n ↦ ok (some n)
        | length_prefix ↦ prefixed_size q (b + 26)
        | in_size_byte ↦ unknown_size q b
      ]
  unfolding data_size size_of
  data_size_lem q b t = ground arith

  next_event-packed : next_event p a ≡ ok (some (decoded_event e, a + 26 + length e.contents))
  unfolding next_event decoded_event
  next_event-packed =
      let within : ltb (length p) (a + 26 + length e.contents) ≡ false = ground (arith, long) in
      rw (
        le→leb (a + 26) (length p) (omega (arith, long)),
        header_back,
        data_size_lem p a e.event_type,
        size_back (size_of e.event_type) v.has_size,
        within,
        slice-packed (event_fields before e) rest e.contents 8 (a + 26) (a + 26 + length e.contents)
            refl (omega (sizes, v.reserved_length)) refl,
      )

length-wire_ge : (es : List WireEvent) → length es ≤ length (wire es)
unfolding wire event_bytes
length-wire_ge [] = omega arith
length-wire_ge (e ∷ es) = omega (
  sizes,
  length-append (packed (event_fields [] e)) (wire es),
  length-packed (event_fields [] e),
  length-wire_ge es,
)

next_event-after :
    (e : WireEvent) (q before rest : Bytes) (b : ℕ)
    → IsEvent e
    → q ≡ packed (event_fields before e) ++ rest
    → b ≡ length before
    → next_event q b ≡ ok (some (decoded_event e, b + 26 + length e.contents))
next_event-after e q before rest b v same here = rw (same, here) (next_event-packed before rest e v)

parse_events-wire :
    (es : List WireEvent) (fuel : ℕ) (q before tail : Bytes) (b : ℕ)
    → All IsEvent es
    → length tail < 26
    → length es < fuel
    → q ≡ before ++ (wire es ++ tail)
    → b ≡ length before
    → parse_events fuel q b ≡ ok (map decoded_event es)
unfolding parse_events wire
parse_events-wire es zero q before tail b v h k same here = absurd (omega arith)
parse_events-wire [] (suc fuel) q before tail b v h k same here =
    let none_left : next_event q b ≡ ok none =
      unfold next_event in ground (arith, length-append before tail, ap length same) in
    rw none_left
parse_events-wire (e ∷ es) (suc fuel) q before tail b (v, vs) h k same here =
    let before' = packed (event_fields before e) in
    let same' : q ≡ before' ++ (wire es ++ tail) =
      unfold event_bytes in
      same
      ∙ ap (λ x. before ++ x) (append_assoc (packed (event_fields [] e)) (wire es) tail)
      ∙ sym (append_assoc before (packed (event_fields [] e)) (wire es ++ tail)) in
    let next : b + 26 + length e.contents ≡ length before' =
      omega (sizes, length-packed (event_fields before e), v.reserved_length) in
    rw (
      next_event-after e q before (wire es ++ tail) b v same' here,
      parse_events-wire es fuel q before' tail (b + 26 + length e.contents) vs h (omega arith) same'
          next,
    )

-- A broadcast message of eight bytes, any number of well-formed log events one behind the other,
-- and fewer than 26 further bytes decodes to exactly these events, in their order.
pub decode_log_events-wire :
    (head tail : Bytes) (es : List WireEvent)
    → length head ≡ 8
    → length tail < 26
    → All IsEvent es
    → decode_log_events (head ++ (wire es ++ tail)) ≡ ok (map decoded_event es)
unfolding decode_log_events
decode_log_events-wire head tail es h k v =
    let p = head ++ (wire es ++ tail) in
    let size : length p ≡ 8 + length (wire es) + length tail =
      omega (arith, length-append head (wire es ++ tail), length-append (wire es) tail) in
    rw (
      at_least_enough 8 p _ (omega (arith, size)),
      read_le-word p 0 4 (omega (arith, size)),
      parse_events-wire es (length p) p head tail 8 v k (omega (arith, size, length-wire_ge es))
          refl (sym h),
    )
