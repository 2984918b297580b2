-- ===== src/Ingestion/Decoders/LogEvents/Totality.antt =====
-- The event decoder ends with a value on every payload that is long enough.
use qonduit.Common.{
  ℕ, zero, suc, ◌+◌, ◌≤◌, ◌<◌, List, [], ◌∷◌, Bool, true, false, Option, none, some, ltb, leb,
  length, ◌==◌, ◌&&◌, if◌then◌else◌, arith, Bool-cases, inl, inr,
}
use qonduit.Bytes.{Bytes, Result, ok, slice, ◌>>=◌}
use qonduit.Bytes.Slices.{slice-cut}
use qonduit.Ingestion.Decoders.Guards.{IsOk, is_ok, Decoded, Decoded-intro, then_read, then-IsOk}
use qonduit.Ingestion.Decoders.LogEvents.{
  LogEvent, prefixed_size, unknown_size, data_size, event_header, next_event, parse_events,
  decode_log_events,
}

prefixed_size-IsOk : (p : Bytes) (a : ℕ) → IsOk (prefixed_size p a)
unfolding prefixed_size
prefixed_size-IsOk p a = elim (Bool-cases (leb (a + 2) (length p))) [
  | inl fits ↦ rw fits (then_read p a 2 _ (ground arith) λ _. is_ok _)
  | inr over ↦ rw over (is_ok _)
]

unknown_size-IsOk : (p : Bytes) (a : ℕ) → IsOk (unknown_size p a)
unfolding unknown_size
unknown_size-IsOk p a = elim (Bool-cases (ltb (a + 19) (length p))) [
  | inl fits ↦ rw fits (then_read p (a + 19) 1 _ (ground arith) λ _. is_ok _)
  | inr over ↦ rw over (is_ok _)
]

if-IsOk {ℓ} :
    {A : Type ℓ} (test : Bool) (r s : Result A) → IsOk r → IsOk s → IsOk (if test then r else s)
if-IsOk true r s h k = h
if-IsOk false r s h k = k

data_size-IsOk : (p : Bytes) (a ty : ℕ) → IsOk (data_size p a ty)
unfolding data_size
data_size-IsOk p a ty = if-IsOk (ty == 0) _ _ (is_ok _) (
    if-IsOk (ty == 1) _ _ (is_ok _) (
      if-IsOk (ty == 2) _ _ (is_ok _) (
        if-IsOk (ty == 3) _ _ (is_ok _) (
          if-IsOk (leb 4 ty && leb ty 7) _ _ (prefixed_size-IsOk p (a + 26)) (
            if-IsOk (ty == 8) _ _ (is_ok _) (
              if-IsOk (ty == 9) _ _ (is_ok _) (
                if-IsOk (ty == 10) _ _ (is_ok _) (
                  if-IsOk (ty == 11) _ _ (is_ok _) (
                    if-IsOk (ty == 12) _ _ (is_ok _) (
                      if-IsOk (ty == 13) _ _ (is_ok _) (
                        if-IsOk (ty == 14) _ _ (is_ok _) (
                          if-IsOk (ty == 15) _ _ (prefixed_size-IsOk p (a + 26)) (
                            if-IsOk (ty == 255) _ _ (prefixed_size-IsOk p (a + 26))
                              (unknown_size-IsOk p a))))))))))))))

event_header-IsOk : (p : Bytes) (a : ℕ) → a + 26 ≤ length p → IsOk (event_header p a)
unfolding event_header
event_header-IsOk p a h = then_read p a 4 _ (omega arith) λ _.
    then_read p (a + 4) 4 _ (omega arith) λ _. then_read p (a + 8) 2 _ (omega arith) λ _.
      then_read p (a + 10) 8 _ (omega arith)
        λ _. then_read p (a + 18) 1 _ (omega arith) λ _. is_ok _

-- A round succeeds; if it finds an event, it moves past the header and stays in the payload.
data Rounds (p : Bytes) (a : ℕ) : Result (Option (LogEvent × ℕ)) → Type 0 where
  stop : Rounds p a (ok none)
  step : (e : LogEvent) (end : ℕ) → a + 26 ≤ end → end ≤ length p → Rounds p a (ok (some (e, end)))

take_data :
    (p : Bytes) (a : ℕ) (e : LogEvent) (r : Result (Option ℕ))
    → IsOk r
    → Rounds p a (
        r >>= λ size. elim size [
          | none ↦ ok none
          | some n ↦ if ltb (length p) (a + 26 + n) then ok none else (do
            bytes ← slice p (a + 26) (a + 26 + n)
            ok (some (record e { event_data = bytes }, a + 26 + n)))
        ])
take_data p a e _ (is_ok none) = stop
take_data p a e _ (is_ok (some n)) = elim (Bool-cases (ltb (length p) (a + 26 + n))) [
  | inl over ↦ rw over stop
  | inr fits ↦
      let room : a + 26 + n ≤ length p = ground arith in
      rw (fits, slice-cut p (a + 26) (a + 26 + n) (omega arith) room)
        (step _ (a + 26 + n) (omega arith) room)
]

with_header :
    (p : Bytes) (a : ℕ) (r : Result LogEvent) (f : LogEvent → Result (Option (LogEvent × ℕ)))
    → IsOk r
    → ((e : LogEvent) → Rounds p a (f e))
    → Rounds p a (r >>= f)
with_header p a _ f (is_ok e) k = k e

next_event-Rounds : (p : Bytes) (a : ℕ) → Rounds p a (next_event p a)
unfolding next_event
next_event-Rounds p a = elim (Bool-cases (leb (a + 26) (length p))) [
  | inr over ↦ rw over stop
  | inl fits ↦ rw fits (
      with_header p a (event_header p a) _ (event_header-IsOk p a (ground arith))
        λ e. take_data p a e (data_size p a e.event_type) (data_size-IsOk p a e.event_type))
]

loop_round :
    (p : Bytes) (a : ℕ) (f : ℕ → Result (List LogEvent)) (r : Result (Option (LogEvent × ℕ)))
    → Rounds p a r
    → ((end : ℕ) → a + 26 ≤ end → end ≤ length p → IsOk (f end))
    → IsOk (
        r >>= λ next. elim next [
          | none ↦ ok []
          | some (event, data_end) ↦ do rest ← f data_end; ok (event ∷ rest)
        ])
loop_round p a f _ stop k = is_ok _
loop_round p a f _ (step e end past inside) k = then-IsOk (f end) _ (k end past inside) λ _. is_ok _

pub parse_events-IsOk :
    (fuel : ℕ) (p : Bytes) (a : ℕ) → length p ≤ a + fuel → 0 < fuel → IsOk (parse_events fuel p a)
unfolding parse_events
parse_events-IsOk zero p a h pos = absurd (omega arith)
parse_events-IsOk (suc fuel) p a h pos =
    loop_round p a (parse_events fuel p) (next_event p a) (next_event-Rounds p a)
      λ end past inside. parse_events-IsOk fuel p end (omega arith) (omega arith)

-- Decoding a broadcast message always ends: below 8 bytes with the length error, from there on with
-- a list of events; the fuel of the model is never used up.
pub decode_log_events-Decoded : (p : Bytes) → Decoded 8 p (decode_log_events p)
unfolding decode_log_events
decode_log_events-Decoded p = Decoded-intro 8 p _ λ h.
    then_read p 0 4 _ (omega arith)
      λ _. parse_events-IsOk (length p) p 8 (omega arith) (omega arith)
