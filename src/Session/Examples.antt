-- ===== src/Session/Examples.antt =====
-- Runs of pkg/session, and the theorems at concrete inputs.
use operator_os.Base.{◌≡◌, refl, some, List, [], ◌∷◌, Text, codes, text_eq, lookup, insert}
use operator_os.Providers.Messages.{Message, user, plain_message}
use operator_os.Session.Manager.{
  Session, SessionManager, add_full_message, truncate_history, truncate_session,
}
use operator_os.Session.History.{
  Call, add, truncate, call, calls, transcripts, spec_calls, calls_refine,
}
use operator_os.Session.Evictor.{EvictorConfig, run_once}
use operator_os.Session.Evictor.Sqlite.{
  Database, sqlite_store, evict_expired, evict_lru, fresh_rows, delete_oldest, oldest, delete_at,
}

abbrev said : Text → Message
said t = plain_message user t

abbrev fresh_manager : SessionManager
fresh_manager = record { sessions = []; storage = codes "/data" }

abbrev chat : List Call
chat =
    add (codes "a:b") (said (codes "one")) 1
    ∷ add (codes "a:b") (said (codes "two")) 2
    ∷ add (codes "a_b") (said (codes "three")) 3
    ∷ truncate (codes "a:b") 1 4
    ∷ []

calls_refine_example :
    transcripts (calls fresh_manager chat) ≡ spec_calls (transcripts fresh_manager) chat
calls_refine_example = calls_refine fresh_manager chat

chat_history : transcripts (calls fresh_manager chat) (codes "a:b") ≡ some (said (codes "two") ∷ [])
unfolding call add_full_message truncate_history truncate_session lookup insert text_eq
chat_history = refl

abbrev colon_session : Session
colon_session = record {
  key = codes "a:b";
  messages = said (codes "two") ∷ [];
  summary = [];
  created = 1;
  updated = 4;
}

abbrev underscore_session : Session
underscore_session = record {
  key = codes "a_b";
  messages = said (codes "three") ∷ [];
  summary = [];
  created = 3;
  updated = 3;
}

abbrev two_sessions : SessionManager
two_sessions = record {
  sessions = (codes "a:b", colon_session) ∷ (codes "a_b", underscore_session) ∷ [];
  storage = codes "/data";
}

chat_sessions : calls fresh_manager chat ≡ two_sessions
unfolding call add_full_message truncate_history truncate_session lookup insert text_eq
chat_sessions = refl

abbrev sweep_config : EvictorConfig
sweep_config = record { ttl = 50; max_sessions = 1; interval = 1 }

abbrev three_rows : Database
three_rows = record {
  rows =
      record { key = codes "x"; updated_at = 70 }
      ∷ record { key = codes "y"; updated_at = 10 }
      ∷ record { key = codes "z"; updated_at = 60 }
      ∷ [];
  clock = 100;
  fails = [];
}

sweep_total : (run_once sqlite_store sweep_config three_rows).total ≡ 2
unfolding run_once evict_expired evict_lru fresh_rows delete_oldest oldest delete_at
sweep_total = refl
