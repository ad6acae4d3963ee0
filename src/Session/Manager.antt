-- ===== src/Session/Manager.antt =====
-- pkg/session/manager.go with its sessions in memory (no `SessionStore` behind it). Each method that
-- changes a session takes the value of `time.Now()`. A pointer to a session stands for its entry in
-- the map: every method reads and writes it through the map, under the lock.
use Prim.Native.Nat.{ℕ}
use operator_os.Base.{
  zero, suc, ◌-◌, Bool, false, ◌||◌, not, Option, none, some, List, [], ◌∷◌, ◌++◌, map, Text, codes,
  text_eq, is_empty, lookup, insert, length, drop, leb, ◌==◌, if◌then◌else◌,
}
use operator_os.Providers.Messages.{Role, Message, plain_message}

pub record Session : Type 0 where
  pub key : Text
  pub messages : List Message
  pub summary : Text
  pub created : ℕ
  pub updated : ℕ

pub record SessionManager : Type 0 where
  pub sessions : List (Text × Session)
  pub storage : Text

abbrev pub empty_session : Text → ℕ → ℕ → Session
empty_session k created updated = record {
  key = k;
  messages = [];
  summary = [];
  created = created;
  updated = updated;
}

abbrev pub put : SessionManager → Text → Session → SessionManager
put sm k s = record sm { sessions = insert k s sm.sessions }

unfoldable pub get_or_create : SessionManager → Text → ℕ → SessionManager × Session
get_or_create sm k now = elim (lookup k sm.sessions) [
  | some s ↦ (sm, s)
  | none ↦ (put sm k (empty_session k now now), empty_session k now now)
]

abbrev pub session_or_new : Option Session → Text → ℕ → Session
session_or_new none k now = empty_session k now 0
session_or_new (some s) k now = s

abbrev pub append_message : Session → Message → ℕ → Session
append_message s m now = record s { messages = s.messages ++ m ∷ []; updated = now }

unfoldable pub add_full_message : SessionManager → Text → Message → ℕ → SessionManager
add_full_message sm k m now =
    put sm k (append_message (session_or_new (lookup k sm.sessions) k now) m now)

unfoldable pub add_message : SessionManager → Text → Role → Text → ℕ → SessionManager
unfolding add_full_message
add_message sm k role content now = add_full_message sm k (plain_message role content) now

unfoldable pub get_history : SessionManager → Text → List Message
get_history sm k = elim (lookup k sm.sessions) [ none ↦ [] | some s ↦ s.messages ]

unfoldable pub get_summary : SessionManager → Text → Text
get_summary sm k = elim (lookup k sm.sessions) [ none ↦ [] | some s ↦ s.summary ]

unfoldable pub set_summary : SessionManager → Text → Text → ℕ → SessionManager
set_summary sm k summary now = elim (lookup k sm.sessions) [
  | none ↦ sm
  | some s ↦ put sm k (record s { summary = summary; updated = now })
]

-- `keepLast <= 0` is `zero`: a negative number does the same.
unfoldable pub truncate_session : Session → ℕ → ℕ → Session
truncate_session s zero now = record s { messages = []; updated = now }
truncate_session s (suc k) now =
    if leb (length s.messages) (suc k)
    then s
    else record s { messages = drop (length s.messages - suc k) s.messages; updated = now }

unfoldable pub truncate_history : SessionManager → Text → ℕ → ℕ → SessionManager
unfolding truncate_session
truncate_history sm k keep_last now = elim (lookup k sm.sessions) [
  | none ↦ sm
  | some s ↦ put sm k (truncate_session s keep_last now)
]

unfoldable pub set_history : SessionManager → Text → List Message → ℕ → SessionManager
set_history sm k history now = elim (lookup k sm.sessions) [
  | none ↦ sm
  | some s ↦ put sm k (record s { messages = history; updated = now })
]

-- `strings.ReplaceAll(key, ":", "_")`
unfoldable pub sanitize_filename : Text → Text
sanitize_filename = map (λ c. if c == b':' then b'_' else c)

abbrev pub has_byte : ℕ → Text → Bool
has_byte b [] = false
has_byte b (c ∷ s) = (c == b) || has_byte b s

-- The names that `Save` accepts, on Unix: `filepath.IsLocal` refuses the empty name, and of the
-- names with no slash only "..".
unfoldable pub valid_filename : Text → Bool
valid_filename f = not (
    text_eq f (codes ".")
    || is_empty f
    || text_eq f (codes "..")
    || has_byte b'/' f
    || has_byte 92 f)

-- What `Save` does: nothing, an error, or the name and the session that it writes.
pub data SaveAction : Type 0 where
  nothing_to_save invalid_name : SaveAction
  write_file : Text → Session → SaveAction

unfoldable pub save : SessionManager → Text → SaveAction
unfolding sanitize_filename valid_filename
save sm k =
    let filename = sanitize_filename k in
    if is_empty sm.storage
    then nothing_to_save
    else if not (valid_filename filename)
    then invalid_name
    else elim (lookup k sm.sessions) [
      | none ↦ nothing_to_save
      | some s ↦ write_file (filename ++ codes ".json") s
    ]

-- The session files that could be read, in the order of the directory.
unfoldable pub load_sessions : SessionManager → List Session → SessionManager
load_sessions sm [] = sm
load_sessions sm (s ∷ files) = load_sessions (put sm s.key s) files
