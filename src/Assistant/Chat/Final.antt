-- ===== src/Assistant/Chat/Final.antt =====
-- Every answer ends once (apps/client/src/features/ai/adapters/openai.ts and anthropic.ts).
use trominal.Shared.{List, [], ◌∷◌, ◌++◌, map, Text, ◌≡◌}
use trominal.Assistant.Chat.{ChatChunk, text, done, error}
use trominal.Assistant.Chat.OpenAi
use trominal.Assistant.Chat.Anthropic

abbrev pub IsFinal : ChatChunk → Type 0
IsFinal (text delta) = ⊥
IsFinal (done finish) = Unit {0}
IsFinal (error message) = Unit {0}

-- Some text chunks, and then one chunk that ends the answer.
abbrev pub IsAnswer : List ChatChunk → Type 0
IsAnswer chunks =
    (deltas : List Text) × (last : ChatChunk) × (IsFinal last)
    × (chunks ≡ map text deltas ++ (last ∷ []))
