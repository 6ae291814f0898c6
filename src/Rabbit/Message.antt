-- ===== src/Rabbit/Message.antt =====
-- message.cpp: a message and the AMQP properties made from it. A property stands in the structure when
-- its flag is set, so each is an option here, and the word of flags is left out.
use backend_common_component.Prelude.{ℕ, zero, suc, Option, none, some, [], ◌∷◌}
use backend_common_component.Ini.Reader.{Text}

-- `amqp_table_t`: a number of entries and the address of the first.
pub record AmqpTable : Type 0 where
  pub num_entries : ℕ
  pub entries : ℕ

pub record Message : Type 0 where
  pub body : Text
  pub exchange : Text
  pub routing_key : Text
  pub content_type : Text
  pub content_encoding : Text
  pub delivery_mode : ℕ
  pub correlation_id : Text
  pub reply_to : Text
  pub message_id : Text
  pub priority : ℕ
  pub expiration : Text
  pub headers : AmqpTable

pub record Properties : Type 0 where
  pub content_type : Option Text
  pub content_encoding : Option Text
  pub delivery_mode : Option ℕ
  pub correlation_id : Option Text
  pub reply_to : Option Text
  pub message_id : Option Text
  pub priority : Option ℕ
  pub expiration : Option Text
  pub headers : Option AmqpTable

-- The three tests of `properties`: not empty, over zero, with entries.
unfoldable pub if_text : Text → Option Text
if_text [] = none
if_text (c ∷ s) = some (c ∷ s)

unfoldable pub if_number : ℕ → Option ℕ
if_number zero = none
if_number (suc n) = some (suc n)

unfoldable pub if_entries : ℕ → ℕ → Option AmqpTable
if_entries zero a = none
if_entries (suc n) a = some (record { num_entries = suc n; entries = a })

unfoldable pub properties : Message → Properties
unfolding if_text if_number if_entries
properties m = record {
  content_type = if_text m.content_type;
  content_encoding = if_text m.content_encoding;
  delivery_mode = if_number m.delivery_mode;
  correlation_id = if_text m.correlation_id;
  reply_to = if_text m.reply_to;
  message_id = if_text m.message_id;
  priority = if_number m.priority;
  expiration = if_text m.expiration;
  headers = if_entries m.headers.num_entries m.headers.entries;
}

-- `Message(body, exchange, routing_key)` with the defaults of the class.
unfoldable pub new_message : (body exchange routing_key : Text) → Message
new_message body exchange routing_key = record {
  body = body;
  exchange = exchange;
  routing_key = routing_key;
  content_type = b't' ∷ b'e' ∷ b'x' ∷ b't' ∷ b'/' ∷ b'p' ∷ b'l' ∷ b'a' ∷ b'i' ∷ b'n' ∷ [];
  content_encoding = [];
  delivery_mode = 2;
  correlation_id = [];
  reply_to = [];
  message_id = [];
  priority = 0;
  expiration = [];
  headers = record { num_entries = 0; entries = 0 };
}

-- The setters.
unfoldable pub set_body : Text → Message → Message
set_body v m = record m { body = v }

unfoldable pub set_exchange : Text → Message → Message
set_exchange v m = record m { exchange = v }

unfoldable pub set_routing_key : Text → Message → Message
set_routing_key v m = record m { routing_key = v }

unfoldable pub set_content_type : Text → Message → Message
set_content_type v m = record m { content_type = v }

unfoldable pub set_content_encoding : Text → Message → Message
set_content_encoding v m = record m { content_encoding = v }

unfoldable pub set_delivery_mode : ℕ → Message → Message
set_delivery_mode v m = record m { delivery_mode = v }

unfoldable pub set_correlation_id : Text → Message → Message
set_correlation_id v m = record m { correlation_id = v }

unfoldable pub set_reply_to : Text → Message → Message
set_reply_to v m = record m { reply_to = v }

unfoldable pub set_message_id : Text → Message → Message
set_message_id v m = record m { message_id = v }

unfoldable pub set_priority : ℕ → Message → Message
set_priority v m = record m { priority = v }

unfoldable pub set_expiration : Text → Message → Message
set_expiration v m = record m { expiration = v }

unfoldable pub set_headers : AmqpTable → Message → Message
set_headers v m = record m { headers = v }
