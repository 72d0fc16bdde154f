-- ===== src/Usage/Plugin.antt =====
-- internal/usage/plugin.go: the plugin that writes the event of a call at once. The error of the
-- writer is logged, and a record whose key names no principal is skipped.
use cliproxy_new.Base.{Option, none, some, Result, ok, err}
use cliproxy_new.Store.{StoreError, Done}
use cliproxy_new.Access.Principal.{Invalid}
use cliproxy_new.Usage.{Record, UsageEvent, usage_event_from_record}

pub record EventWriter (D : Type 0) : Type 0 where
  pub insert : UsageEvent → D → Result StoreError Done × D

write_event : {D : Type 0} → EventWriter D → Result Invalid UsageEvent → D → D
write_event w (err reason) d = d
write_event w (ok event) d = (w.insert event d).1

unfoldable pub handle_usage : {D : Type 0} → Option (EventWriter D) → Record → D → D
unfolding write_event
handle_usage none r d = d
handle_usage (some w) r d = write_event w (usage_event_from_record r) d
