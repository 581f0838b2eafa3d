-- ===== src/WorkflowRuntime/Worker/Releases.antt =====
-- A worker does not leave the row it processed leased or running.
use aegis_flow.Base.{false, List, ◌≡◌, In}
use aegis_flow.WorkflowRuntime.Queue.{QueueItem, is_held}

-- A row with the id of `q` that no worker holds.
abbrev pub Released : QueueItem → List QueueItem → Type 0
Released q items = (r : QueueItem) × (In r items × ((r.id ≡ q.id) × (is_held r.status ≡ false)))
