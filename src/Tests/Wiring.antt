-- ===== src/Tests/Wiring.antt =====
-- A transcript with a turn that nothing goes back of (src/nare/transport/anthropic.py).
use nare.Prelude.{◌≡◌, List, [], ◌∷◌, codes, keep}
use nare.Session.Types.{Message, user, assistant, text, thinking}
use nare.Session.Thinking.{sent_back}
use nare.Session.Continue.{Alternates}
use nare.Wire.Messages.{messages_from}
use nare.Wire.Whole.{spoken, messages_from-spoken}

abbrev unsigned : List Message
unsigned =
    record { role = user; content = text (codes "fix it") ∷ [] }
    ∷ record { role = assistant; content = thinking (codes "hm") [] ∷ [] }
    ∷ record { role = user; content = text (codes "go on") ∷ [] }
    ∷ []

messages_from-spoken_example :
    Alternates (messages_from unsigned)
    × (spoken (messages_from unsigned) ≡ keep (λ p. sent_back p.1) (spoken unsigned))
messages_from-spoken_example = messages_from-spoken unsigned
