-- ===== src/Agent/Forgotten.antt =====
-- What the summaries of pkg/agent/loop.go keep of a session.
use operator_os.Base.{List}
use operator_os.Session.Manager.{Session}
use operator_os.Agent.Summary.{Agent}
