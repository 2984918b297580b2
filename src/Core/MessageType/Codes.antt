-- ===== src/Core/MessageType/Codes.antt =====
-- The numbers of the message types, and their classes.
use qonduit.Common.{
  ℕ, zero, suc, ◌<◌, ◌≡◌, refl, Bool, true, false, none, some, ◌==◌, ◌&&◌, ◌||◌, ==_iff, arith, ◌↔◌,
  ◌⊎◌, inl, inr, subst,
}
use qonduit.Core.MessageType.{
  NetworkMessageType, exchange_public_peers, special_command, to_u8, from_u8, is_request,
  is_response, is_broadcast,
}

-- Whether a byte that decodes to a type is that type's number.
numbered : ℕ → Bool
numbered v = elim (from_u8 v) [ none ↦ true | some t ↦ to_u8 t == v ]

-- The bytes below a bound, tested one after the other.
bytes_numbered : ℕ → Bool
bytes_numbered zero = true
bytes_numbered (suc v) = bytes_numbered v && numbered v

every_byte : bytes_numbered 256 ≡ true
unfolding bytes_numbered numbered from_u8 to_u8
every_byte = refl

numbered-below : (bound v : ℕ) → v < bound → bytes_numbered bound ≡ true → numbered v ≡ true
unfolding bytes_numbered
numbered-below zero v lt table = absurd (omega arith)
numbered-below (suc bound) v lt table = ground (arith, numbered-below bound v)

from_u8-to_u8 : (t : NetworkMessageType) → from_u8 (to_u8 t) ≡ some t
unfolding from_u8 to_u8
from_u8-to_u8 exchange_public_peers = refl
from_u8-to_u8 _ = refl

to_u8-from_u8 : (v : ℕ) (t : NetworkMessageType) → v < 256 → from_u8 v ≡ some t → to_u8 t ≡ v
unfolding numbered
to_u8-from_u8 v t h e = (==_iff (to_u8 t) v).0 (
    subst (λ o. elim o [ none ↦ true | some u ↦ to_u8 u == v ] ≡ true) e
      (numbered-below 256 v h every_byte))

-- A byte decodes to a message type exactly when it is that type's number: `from_u8` accepts every
-- discriminant of the enum and no other byte, and never confuses two types.
pub from_u8-iff-to_u8 :
    (v : ℕ) (t : NetworkMessageType) → v < 256 → (from_u8 v ≡ some t) ↔ (to_u8 t ≡ v)
from_u8-iff-to_u8 v t h =
    (to_u8-from_u8 v t h, λ e. subst (λ u. from_u8 u ≡ some t) e (from_u8-to_u8 t))

abbrev pub IsUnclassified : NetworkMessageType → Type 0
IsUnclassified t = (t ≡ exchange_public_peers) ⊎ (t ≡ special_command)

abbrev count_true : Bool → ℕ
count_true true = 1
count_true false = 0

-- The three classes are disjoint: a message type belongs to at most one, and only the peer
-- exchange and the special command belong to none.
pub classes_disjoint :
    (t : NetworkMessageType)
    → ((is_request t && is_response t) ≡ false)
      × ((is_request t && is_broadcast t) ≡ false)
      × ((is_response t && is_broadcast t) ≡ false)
      × (((is_request t || is_response t || is_broadcast t) ≡ false) ↔ IsUnclassified t)
unfolding is_request is_response is_broadcast
classes_disjoint t = (one t, two t, three t, (λ h. four t h, λ u. five t u))
  where
    one : (t : NetworkMessageType) → (is_request t && is_response t) ≡ false
    one exchange_public_peers = refl
    one _ = refl

    two : (t : NetworkMessageType) → (is_request t && is_broadcast t) ≡ false
    two exchange_public_peers = refl
    two _ = refl

    three : (t : NetworkMessageType) → (is_response t && is_broadcast t) ≡ false
    three exchange_public_peers = refl
    three _ = refl

    four :
        (t : NetworkMessageType)
        → (is_request t || is_response t || is_broadcast t) ≡ false
        → IsUnclassified t
    four exchange_public_peers h = inl refl
    four special_command h = inr refl
    four _ h = absurd (cc)

    five :
        (t : NetworkMessageType)
        → IsUnclassified t
        → (is_request t || is_response t || is_broadcast t) ≡ false
    five exchange_public_peers u = refl
    five special_command u = refl
    five _ u = absurd (ground arith)
