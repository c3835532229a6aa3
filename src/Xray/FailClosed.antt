-- ===== src/Xray/FailClosed.antt =====
-- When the endpoint of `Lifecycle` is published.
use super_proxy.Base.{Option, none, some, nat_eq, string_eq, ◌≡◌}
use super_proxy.Xray.{running}
use super_proxy.Xray.Lifecycle.{Runtime, LifecycleError}

-- How an operation ended: without an error, RUNNING; or with one, and nothing is published.
unfoldable pub IsClosed : Runtime × Option LifecycleError → Type 0
IsClosed (w, none) = w.sup.state ≡ running
IsClosed (w, some err) = w.published ≡ none
