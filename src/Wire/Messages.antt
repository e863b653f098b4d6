-- ===== src/Wire/Messages.antt =====
-- The messages of a request: `messages_from` (src/nare/transport/anthropic.py). Blocks hold no images, so
-- its second loop has nothing to do.
use nare.Prelude.{Bool, true, false, ◌&&◌, List, [], ◌∷◌, ◌++◌, if◌then◌else◌}
use nare.Session.Types.{Role, user, assistant, Message}
use nare.Session.Thinking.{sent}
use nare.Step.Turn.{is_nil}

abbrev pub same_role : Role → Role → Bool
same_role user user = true
same_role assistant assistant = true
same_role _ _ = false

abbrev pub is_assistant : Role → Bool
is_assistant user = false
is_assistant assistant = true

-- Joined to the last message where the role is the same, and else a message of its own.
unfoldable pub join_turn : Message → List Message → List Message
join_turn m [] = m ∷ []
join_turn m (k ∷ []) =
    if same_role k.role m.role
    then record k { content = k.content ++ m.content } ∷ []
    else k ∷ m ∷ []
join_turn m (k ∷ l ∷ ls) = k ∷ join_turn m (l ∷ ls)

-- An assistant turn of which nothing goes back is dropped.
unfoldable pub send_turn : List Message → Message → List Message
unfolding join_turn
send_turn output m =
    if is_nil (sent m.content) && is_assistant m.role
    then output
    else join_turn (record m { content = sent m.content }) output

unfoldable pub send_turns : List Message → List Message → List Message
unfolding send_turn
send_turns output [] = output
send_turns output (m ∷ ms) = send_turns (send_turn output m) ms

unfoldable pub messages_from : List Message → List Message
unfolding send_turns
messages_from ms = send_turns [] ms
