-- ===== src/Scope.antt =====
-- scope.py: the seam through which a host scopes the chat and says who is an operator. The mandate
-- of the default provider is the answer of a library, and a parameter of it.
use stapel_chat.Base.{Bool, List, Option, Text, [], true, ℕ}
use stapel_chat.Model.{Conversation}
use stapel_chat.Values.{Json}

-- What a view reads of its request: who asks, the query parameters and the data.
pub record Request : Type 0 where
  pub user : ℕ
  pub query : List (Text × Text)
  pub payload : Json

-- `ScopeProvider`: `admits` is the test of a row by which `filter` restricts a query, and
-- `can_operate` answers nothing where it raises `MandateUnavailable`.
pub record ScopeProvider : Type 0 where
  pub resolve : Request → Text
  pub admits : Request → Conversation → Bool
  pub can_operate : Request → Option Conversation → Option Bool

-- `DefaultScopeProvider`
abbrev pub default_scope_provider : (Request → Option Bool) → ScopeProvider
default_scope_provider mandate_admits = record {
  resolve = λ request. [];
  admits = λ request c. true;
  can_operate = λ request c. mandate_admits request;
}
