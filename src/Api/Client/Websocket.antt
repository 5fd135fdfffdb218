-- ===== src/Api/Client/Websocket.antt =====
-- api/client/websocket.go: the websocket client. The websocket library and net/url are parameters.
-- What the goroutine that reads receives is a list, and what the select of the one that writes
-- receives first is a value; a client is a pointer, and Done, which Close waits for, is left out.
use Prim.Native.String.{len, slice, ◌++◌ as and_text}
use text.Mathlib.Text.{find?}
use bitcoin_processing.Base.{
  Option, none, some, ℕ, suc, ◌+◌, ◌==◌, String, Bool, true, false, List, [], ◌∷◌, ◌++◌,
  if◌then◌else◌,
}
use bitcoin_processing.Base.Int.{ℤ}
use bitcoin_processing.Events.Types.{NotificationWithSeq}
use bitcoin_processing.Monad.{Outcome, ok, err, panic, M, skip, catch, ◌>>◌}

pub record WebsocketLibraries (S C U : Type 0) : Type 0 where
  pub parse : String → Outcome U
  pub scheme : U → String
  pub set_scheme : String → U → U
  pub set_path : String → U → U
  pub url_string : U → String
  pub dial : String → M S C
  pub write_subscribe : ℤ → C → M S (Unit {0})
  pub write_close : C → M S (Unit {0})
  pub close : C → M S (Unit {0})

-- The websocket clients of a Client, and what each pointer points to: whether it has its owner, and
-- whether its channel `interrupt` is closed.
pub record Sockets : Type 0 where
  pub next : ℕ
  pub websocket_clients : List ℕ
  pub owned : ℕ → Bool
  pub interrupted : ℕ → Bool

-- `Close`
abbrev pub remove_first : ℕ → List ℕ → List ℕ
remove_first w [] = []
remove_first w (x ∷ xs) = let rest = remove_first w xs in if x == w then xs else x ∷ rest

abbrev pub set_at : ℕ → Bool → (ℕ → Bool) → ℕ → Bool
set_at w b f x = if x == w then b else f x

unfoldable pub close_socket : ℕ → Sockets → Sockets
close_socket w c =
    if c.owned w
    then record c {
      websocket_clients = remove_first w c.websocket_clients;
      owned = set_at w false c.owned;
      interrupted = set_at w true c.interrupted;
    }
    else c

unfoldable pub add_socket : Sockets → ℕ × Sockets
add_socket c = (
  c.next,
  record c {
    next = suc c.next;
    websocket_clients = c.websocket_clients ++ c.next ∷ [];
    owned = set_at c.next true c.owned;
    interrupted = set_at c.next false c.interrupted;
  },
)

-- The goroutine that reads: what it passes to the callback.
unfoldable pub read_messages : List (Outcome NotificationWithSeq) → List NotificationWithSeq
read_messages (ok n ∷ rest) = n ∷ read_messages rest
read_messages _ = []

-- strings.Replace(scheme, "http", "ws", 1)
abbrev pub replaced_at : String → Option ℕ → String
replaced_at scheme none = scheme
replaced_at scheme (some i) =
    and_text (slice scheme 0 i) (and_text "ws" (slice scheme (i + 4) (len scheme)))

unfoldable pub websocket_scheme : String → String
websocket_scheme scheme = replaced_at scheme (find? scheme "http")

pub data Selected : Type 0 where
  done interrupt : Selected

module _ {S C U : Type 0} (l : WebsocketLibraries S C U) where
  abbrev pub or_log : M S (Unit {0}) → M S (Unit {0})
  or_log m = catch m (λ e. skip)

  -- The goroutine that writes.
  abbrev pub answer_selected : C → Selected → M S (Unit {0})
  answer_selected c done = skip
  answer_selected c interrupt = or_log (l.write_close c)

  unfoldable pub write_messages : ℤ → C → Selected → M S (Unit {0})
  write_messages start_seq c selected =
      or_log (l.write_subscribe start_seq c) >> answer_selected c selected >> or_log (l.close c)

  abbrev pub websocket_url : U → String
  websocket_url u = l.url_string (l.set_path "/ws" (l.set_scheme (websocket_scheme (l.scheme u)) u))

  abbrev pub registered : Outcome C × S → Sockets → Outcome (ℕ × C) × (S × Sockets)
  registered (ok conn, s) c = (ok ((add_socket c).0, conn), (s, (add_socket c).1))
  registered (err e, s) c = (err e, (s, c))
  registered (panic x, s) c = (panic x, (s, c))

  abbrev pub dialed : Outcome U → S → Sockets → Outcome (ℕ × C) × (S × Sockets)
  dialed (ok u) s c = registered (l.dial (websocket_url u) s) c
  dialed (err e) s c = (err e, (s, c))
  dialed (panic x) s c = (panic x, (s, c))

  -- `NewWebsocketClient`: the new client and its connection.
  unfoldable pub new_websocket_client : String → M (S × Sockets) (ℕ × C)
  new_websocket_client api_base_url (s, c) = dialed (l.parse api_base_url) s c
