-- ===== src/Samples.antt =====
-- A small chat that the witnesses run on: one direct thread of the users 1 and 2 with one message,
-- which 2 has left, one open support thread, and two hosts that differ in their block store.
use stapel_chat.Base.{Text, [], codes, false, none, some, take, true, ℕ, ◌∷◌}
use stapel_chat.Model.{
  Conversation, Message, Participant, direct, direct_key_of, group, member, status_open, support,
  text_kind,
}
use stapel_chat.Rest.{Framework}
use stapel_chat.Scope.{Request, ScopeProvider, default_scope_provider}
use stapel_chat.Settings.{Host}
use stapel_chat.Values.{null, num, str}
use stapel_chat.World.{World}

abbrev pub hello_text : Text
hello_text = codes "hi"

abbrev pub auto_text : Text
auto_text = codes "auto"

abbrev pub check_text : Text
check_text = codes "block.check"

abbrev pub sample_host : Host
sample_host = record {
  attachment_types = [];
  runtime_attachment_types = [];
  activity_states = [];
  runtime_activity_states = [];
  subject_types = [];
  runtime_subject_types = [];
  chat_kinds = direct ∷ group ∷ support ∷ [];
  search_name_fields = codes "username" ∷ [];
  search_subject_scan = 500;
  attachments_enabled = true;
  max_body_length = 4000;
  max_attachments = 10;
  max_preview_bytes = 4096;
  attachment_metadata = auto_text;
  edit_window = 0;
  system_line_labels = [];
  block_enforcement = auto_text;
  block_function = check_text;
  presence_ttl = 60;
  presence_throttle = 15;
  presence_fanout_limit = 100;
  presence_requires_account = true;
  spell = λ n. n ∷ [];
  lower = λ t. t;
  guess_extension = λ name mime. null;
  is_reachable = λ name. true;
  ask_blocked = λ pairs. some [];
  describe_many = λ refs. none;
  is_guest = λ user. false;
  read_id = λ v. elim v [ num n ↦ some (some n) | _ ↦ some none ];
  text_of = λ v. elim v [ str s ↦ s | _ ↦ [] ];
  read_int = λ v. elim v [ num n ↦ some n | _ ↦ none ];
  has_user = λ user. true;
  casefold = λ t. t;
  user_matches = λ path needle user. false;
  ask_cards = λ name request keys. none;
  truncate = take;
  read_uuid = λ t. elim t [ [] ↦ none | n ∷ rest ↦ some n ];
}

-- The host whose block store answers that 2 has blocked 1.
abbrev pub blocked_host : Host
blocked_host = record sample_host { ask_blocked = λ pairs. some ((2, 1) ∷ []) }

abbrev pub direct_row : Conversation
direct_row = record {
  id = 1;
  kind = direct;
  scope_key = [];
  direct_key = direct_key_of (λ n. n ∷ []) [] 1 2 [] [];
  subject_type = [];
  subject_key = [];
  last_seq = 1;
  support_status = none;
  assigned_operator = none;
  created_at = 100;
  updated_at = 200;
}

abbrev pub support_row : Conversation
support_row = record {
  id = 3;
  kind = support;
  scope_key = [];
  direct_key = [];
  subject_type = [];
  subject_key = [];
  last_seq = 0;
  support_status = some status_open;
  assigned_operator = none;
  created_at = 100;
  updated_at = 100;
}

abbrev pub seat : ℕ → ℕ → ℕ → Participant
seat k cid user = record {
  id = k;
  conversation = cid;
  user = user;
  role = member;
  last_read_seq = 0;
  last_delivered_seq = 0;
  left_at = none;
  cleared_at = none;
  created_at = 100;
  updated_at = 100;
}

abbrev pub hello : Message
hello = record {
  id = 10;
  conversation = 1;
  sender = some 1;
  seq = 1;
  rev_seq = 1;
  kind = text_kind;
  body = hello_text;
  reply_to = none;
  attachments = [];
  client_msg_id = [];
  edited_at = none;
  deleted_at = none;
  created_at = 200;
}

abbrev pub chat : World
chat = record {
  conversations = direct_row ∷ support_row ∷ [];
  participants = seat 4 1 1 ∷ record (seat 5 1 2) { left_at = some 300 } ∷ seat 6 3 1 ∷ [];
  messages = hello ∷ [];
  presences = [];
  outbox = [];
  scheduled = [];
  next_id = 20;
  clock = 1000;
}

-- A scope that admits every thread and takes nobody for an operator.
abbrev pub sample_scope : ScopeProvider
sample_scope = default_scope_provider (λ request. some false)

abbrev pub request_of : ℕ → Request
request_of user = record { user = user; query = []; payload = null }

-- Every request asks the same, and a page is everything.
abbrev pub sample_framework : Framework
sample_framework = record {
  read_create = λ v. none;
  read_send =
      λ v. some (record { body = hello_text; attachments = []; reply_to = []; client_msg_id = [] });
  read_edit = λ v. some (record { body = hello_text });
  read_mark = λ v. some (record { upto_seq = 1; delivered_upto_seq = 0 });
  read_activity = λ v. none;
  rendering_error = λ dto. none;
  page_messages = λ p request ms. ms;
  page_threads = λ p request cs. cs;
}
