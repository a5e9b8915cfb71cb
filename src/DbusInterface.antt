-- ===== src/DbusInterface.antt =====
-- src/DbusInterface.cpp: taking the name on the bus, and the messages.
use autopilot_manager.Common.{
  ◌≡◌, refl, Bool, true, false, not, Option, none, some, List, [], ◌∷◌, ◌++◌, Double, if◌then◌else◌,
}
use autopilot_manager.Manager.Message.{Padding}
use autopilot_manager.Manager.{Request, Reply, Manager, handle_request}

-- The answers of `dbus_bus_request_name`; `failed` is one with the error set.
pub data NameReply : Type 0 where
  primary_owner in_queue exists already_owner failed : NameReply

pub data Registration : Type 0 where
  registered thrown : Registration

-- The loop of `Register`, over the answers that it gets; `none` while it goes on.
unfoldable pub register : List NameReply → Option Registration
register [] = none
register (NameReply.primary_owner ∷ _) = some Registration.registered
register (NameReply.failed ∷ _) = some Registration.thrown
register (NameReply.in_queue ∷ replies) = register replies
register (NameReply.exists ∷ replies) = register replies
register (NameReply.already_owner ∷ replies) = register replies

-- No answer is the primary ownership or an error.
abbrev pub undecided : List NameReply → Bool
undecided [] = true
undecided (NameReply.primary_owner ∷ _) = false
undecided (NameReply.failed ∷ _) = false
undecided (_ ∷ replies) = undecided replies

-- The loop ends at the first answer that is the primary ownership or an error, with a registration or an
-- exception, whatever would follow; without such an answer it goes on.
pub register_by_first :
    (before after : List NameReply)
    → undecided before ≡ true
    → (register before ≡ none)
      × (register (before ++ NameReply.primary_owner ∷ after) ≡ some Registration.registered)
      × (register (before ++ NameReply.failed ∷ after) ≡ some Registration.thrown)
unfolding register
register_by_first [] after h = (refl, refl, refl)
register_by_first (NameReply.primary_owner ∷ before) after h = absurd (cc)
register_by_first (NameReply.failed ∷ before) after h = absurd (cc)
register_by_first (NameReply.in_queue ∷ before) after h = register_by_first before after h
register_by_first (NameReply.exists ∷ before) after h = register_by_first before after h
register_by_first (NameReply.already_owner ∷ before) after h = register_by_first before after h

-- The constructor: `connected` is whether `dbus_bus_get` gives a connection, and `object_registered`
-- whether the object's path is registered on it. The result is `none` while `Register` goes on.
unfoldable pub connect : (connected object_registered : Bool) → List NameReply → Option Registration
connect connected object_registered replies =
    if not connected
    then some Registration.thrown
    else if not object_registered
    then some Registration.thrown
    else register replies

-- A message, by its interface and member.
pub data Message (W : Type 0) : Type 0 where
  introspect ping : Message W
  method : Request W → Message W

pub data Sent (W : Type 0) : Type 0 where
  introspection empty : Sent W
  reply : Reply W → Sent W

pub data HandlerResult : Type 0 where
  handled not_yet_handled : HandlerResult

module _ {W : Type 0} where
  abbrev pub result_of : Option (Sent W) → HandlerResult
  result_of none = HandlerResult.not_yet_handled
  result_of (some _) = HandlerResult.handled

  abbrev sent_of : Option (Reply W) → Option (Sent W)
  sent_of none = none
  sent_of (some r) = some (Sent.reply r)

module _ {W : Type 0} ⦃d : Double W⦄ where
  -- `allocated` is false where a reply of this function cannot be made. The handler is the autopilot manager's
  -- `HandleRequest`. The last component is what the bus is told.
  unfoldable pub message_handler :
      (allocated opened renamed : Bool)
      → Padding
      → Message W
      → Manager W
      → Option (Manager W × Option (Sent W) × HandlerResult)
  message_handler allocated opened renamed padding Message.introspect m =
      let sent = if allocated then some Sent.introspection else none in
      some (m, sent, result_of sent)
  message_handler allocated opened renamed padding Message.ping m =
      let sent = if allocated then some Sent.empty else none in some (m, sent, result_of sent)
  message_handler allocated opened renamed padding (Message.method request) m =
      elim (handle_request opened renamed padding request m) [
        | none ↦ none
        | some (n, answer) ↦ some (n, sent_of answer, result_of (sent_of answer))
      ]
