-- ===== src/Storage/Marked.antt =====
-- What an update of delivery_status does to the table, row by row.
use go_send.Base.{
  ap, false, ◌≡◌, refl, Bool, List, [], ◌∷◌, map, some, Text, if◌then◌else◌, text_eq, text_eq_iff,
  arith,
}
use go_send.Storage.Messages.{DeliveryStatus, Message, find_message, set_status}

-- The rows, where each that the test picks has this status and is otherwise as it was.
abbrev pub with_status : DeliveryStatus → (Message → Bool) → List Message → List Message
with_status s picks = map (λ m. if picks m then record m { delivery_status = s } else m)

abbrev pub is_named : Text → Message → Bool
is_named id m = text_eq m.message_id id

pub set_status-with_status :
    (id : Text) (s : DeliveryStatus) (rows : List Message)
    → set_status id s rows ≡ with_status s (is_named id) rows
unfolding set_status
set_status-with_status id s [] = refl
set_status-with_status id s (m ∷ rows) = ground (arith, set_status-with_status id s rows)

-- The row that is found by an ID has it.
pub find_message-id :
    (id : Text) (rows : List Message) (m : Message)
    → find_message id rows ≡ some m
    → m.message_id ≡ id
unfolding find_message
find_message-id id [] m h = absurd (ground (arith, h))
find_message-id id (n ∷ rows) m h =
    ground (arith, h, find_message-id id rows m, text_eq_iff n.message_id id)

-- To pick no row changes nothing.
pub with_status-none :
    (t : DeliveryStatus) (rows : List Message) → with_status t (λ m. false) rows ≡ rows
with_status-none t [] = refl
with_status-none t (m ∷ rows) = ap (λ (r : List Message). m ∷ r) (with_status-none t rows)
