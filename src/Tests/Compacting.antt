-- ===== src/Tests/Compacting.antt =====
-- A session over its window, with a long result and a long write (src/nare/compact.py).
use nare.Prelude.{
  inl, arith, refl, ◌++◌, ℕ, ◌+◌, ◌≡◌, false, List, [], ◌∷◌, Text, codes, length, drop,
}
use nare.Json.Value.{Value, str, obj, end, field}
use nare.Session.Types.{Measured, Block, text, tool_use, tool_result, Message, user, assistant}
use nare.Compact.Elide.{compact}
use nare.Compact.Keeps.{skeleton, skeleton-compact}
use nare.Compact.Recent.{spoken, compact-spoken}

abbrev block_size : Block → ℕ
block_size (text t) = length t
block_size (tool_result i content failed) = length content
block_size _ = 10

abbrev content_size : List Block → ℕ
content_size [] = 0
content_size (b ∷ bs) = block_size b + content_size bs

abbrev size : List Message → ℕ
size [] = 0
size (m ∷ ms) = content_size m.content + size ms

abbrev shown : Value → Text
shown (str t) = t
shown _ = []

abbrev unmeasured : Measured
unmeasured = record { tokens = 0; messages = 0; chars = 0 }

abbrev long : Text
long =
    codes
      "line one of the file, line two of the file, line three of the file, line four of the file, line five"

abbrev early : List Message
early =
    record { role = user; content = text (codes "fix it") ∷ [] }
    ∷ record {
      role = assistant;
      content =
          tool_use (codes "c1") (codes "write") (obj (field (codes "content") (str long) end)) ∷ [];
    }
    ∷ record { role = user; content = tool_result (codes "c1") long false ∷ [] }
    ∷ []

abbrev recent : List Message
recent =
    record { role = assistant; content = text (codes "so") ∷ [] }
    ∷ record { role = user; content = text (codes "and") ∷ [] }
    ∷ record { role = assistant; content = text (codes "done") ∷ [] }
    ∷ []

abbrev reads : List Message
reads = early ++ recent

skeleton-compact_example : skeleton (compact size shown unmeasured 10 reads).0 ≡ skeleton reads
skeleton-compact_example = skeleton-compact size shown unmeasured 10 reads

compact-spoken_example : spoken (drop 3 (compact size shown unmeasured 10 reads).0) ≡ spoken recent
compact-spoken_example =
    compact-spoken size shown unmeasured 10 early recent (inl (refl, omega arith))
