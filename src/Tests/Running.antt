-- ===== src/Tests/Running.antt =====
-- The theorem on the whole system at a concrete sequence of steps.
use forex_remote_copy_tradin.Prelude.{◌≡◌, refl, none, some, [], ◌∷◌, arith}
use forex_remote_copy_tradin.World.{World, update_order}
use forex_remote_copy_tradin.CopyEngine.Fanout.{handle_master_event}
use forex_remote_copy_tradin.CopyEngine.Fanout.Laws.{IsUnique}
use forex_remote_copy_tradin.Connectors.Polling.{pending_instruction}
use forex_remote_copy_tradin.Connectors.Transport.{other_message, on_message}
use forex_remote_copy_tradin.System.{
  Settings, Reaches, event_copied, message_received, slave_polled, here, after,
}
use forex_remote_copy_tradin.System.Unique.{Reaches-IsUnique}
use forex_remote_copy_tradin.System.Identity.{Reaches-Kept}
use forex_remote_copy_tradin.System.Coherent.{Reaches-authenticate}
use forex_remote_copy_tradin.System.Writes.Kept.{Kept}
use forex_remote_copy_tradin.Types.{CopyOrder, CopyOrderStatus}
use forex_remote_copy_tradin.CopyEngine.Results.{with_result}
use forex_remote_copy_tradin.Connectors.Service.{authenticate_connector}
use forex_remote_copy_tradin.Connectors.Service.Cache.{owner_by_hash}
use forex_remote_copy_tradin.Tests.Data.{opened, ended, executed_message, sent_open, start}

abbrev settings : Settings
settings = record {
  hash_token = λ t. t;
  idempotency_ttl_seconds = 60;
  offline_threshold_seconds = 15;
  numeric = λ digits n. n;
}

-- the OPEN is copied, the MT5 Slave answers, the MT4 Slave polls, and the CLOSE is copied
abbrev copied_state : World
copied_state = handle_master_event (λ s. s.id) [] opened start

abbrev answered_state : World
answered_state = on_message 15 "slave-5" "k5" (other_message (some executed_message)) copied_state

abbrev polled_state : World
polled_state =
    (pending_instruction (λ t. t) 15 (λ digits n. n) (some "Bearer hash of t4") answered_state).0

abbrev closing_state : World
closing_state = handle_master_event (λ s. s.id) [] ended polled_state

path : Reaches settings start closing_state
path =
    after
      (after
        (after (after here (event_copied (λ s. s.id) [] opened))
          (message_received "slave-5" "k5" (other_message (some executed_message))))
        (slave_polled (some "Bearer hash of t4")))
      (event_copied (λ s. s.id) [] ended)

later_path : Reaches settings copied_state closing_state
later_path =
    after
      (after (after here (message_received "slave-5" "k5" (other_message (some executed_message))))
        (slave_polled (some "Bearer hash of t4")))
      (event_copied (λ s. s.id) [] ended)

Reaches-Kept_example : Kept copied_state.copy_orders closing_state.copy_orders
Reaches-Kept_example = Reaches-Kept settings copied_state closing_state later_path

empty-IsUnique : IsUnique start
empty-IsUnique t x = omega arith

Reaches-IsUnique_example : IsUnique closing_state
Reaches-IsUnique_example = Reaches-IsUnique settings start closing_state path empty-IsUnique

Reaches-authenticate_example :
    (authenticate_connector (λ t. t) "hash of t4" closing_state).1
    ≡ owner_by_hash closing_state "hash of t4"
Reaches-authenticate_example =
    Reaches-authenticate settings start closing_state "hash of t4" path tt

abbrev pending_row : CopyOrder
pending_row = record sent_open { status = CopyOrderStatus.pending; sent_at = none }

-- The result of a copy comes between its creation and the update to SENT of the same handler.
abbrev sending : CopyOrder → CopyOrder
sending o = record o { status = CopyOrderStatus.sent; sent_at = some 1_000_000 }

abbrev overtaken : World
overtaken = update_order "c1" sending (
    update_order "c1" (with_result executed_message 1_000_000)
      (record start { copy_orders = pending_row ∷ [] }))

-- The row says SENT, though the Slave has executed the copy.
overtaken_status :
    overtaken.copy_orders
    ≡ record sent_open {
      slave_ticket = some "s77";
      sent_at = some 1_000_000;
      executed_at = some 1_000_000;
    }
      ∷ []
overtaken_status = refl
