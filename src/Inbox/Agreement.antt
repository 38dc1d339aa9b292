-- ===== src/Inbox/Agreement.antt =====
-- services.py, `drawn_last_line` and `last_line_reason`: the preview of a row and its reason.
use stapel_chat.Base.{Bool, Text, arith, false, is_empty, is_some, not, strip, ◌&&◌, ◌||◌, ◌≡◌}
use stapel_chat.Inbox.{drawn_last_line, last_line_reason}
use stapel_chat.Model.{MessageKind, is_system}
use stapel_chat.Settings.{Host}

-- A row says why its last line is blank exactly where it draws no words, but for a live message
-- of a person that has neither words nor attachments, which draws nothing and gives no reason.
pub reason-iff_undrawn :
    (host : Host) (kind : MessageKind) (body : Text) (deleted has_attachments : Bool)
    → ((is_some (drawn_last_line host kind body deleted)
          && is_some (last_line_reason host kind body deleted has_attachments))
        ≡ false)
      × ((is_some (drawn_last_line host kind body deleted)
            || is_some (last_line_reason host kind body deleted has_attachments))
          ≡ (deleted || is_system kind || has_attachments || not (is_empty (strip body))))
unfolding drawn_last_line last_line_reason
reason-iff_undrawn host kind body deleted has_attachments = (ground arith, ground arith)
