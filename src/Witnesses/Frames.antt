-- ===== src/Witnesses/Frames.antt =====
-- The theorems on the frames of a socket, applied to the sample chat.
use stapel_chat.Base.{List, [], codes, ℕ, ◌∷◌}
use stapel_chat.Journal.{RunFrom}
use stapel_chat.Samples.{chat, sample_host}
use stapel_chat.Socket.{Frame, delete_frame, read_frame, serve_frames}
use stapel_chat.Socket.Session.{serve_frames-RunFrom}
use stapel_chat.Values.{end, field, num}
use stapel_chat.Witnesses.Journal.{chat-IsJournal}
use stapel_chat.World.{World}

-- The first user takes the message back, and the second one reads a page.
abbrev two_frames : List (ℕ × ℕ × Frame)
two_frames =
    (1, 1, delete_frame (field (codes "message_id") (num 10) end))
    ∷ (1, 2, read_frame (field (codes "upto_seq") (num 1) end))
    ∷ []

abbrev served : World
served = serve_frames sample_host two_frames chat

serve_frames-RunFrom_example : RunFrom chat served
serve_frames-RunFrom_example = serve_frames-RunFrom sample_host two_frames chat chat-IsJournal
