-- ===== src/Tests/Dashboard.antt =====
-- The pages of the dashboard, the routes behind them and the tools at concrete inputs.
use forex_remote_copy_tradin.Auth.{AdminTokenPayload, guarded}
use forex_remote_copy_tradin.Dashboard.Api.{logout, authorization, api_fetch}
use forex_remote_copy_tradin.Dashboard.Polling.{refetched}
use forex_remote_copy_tradin.Slaves.Config.{updated}
use forex_remote_copy_tradin.Slaves.Config.Parsing.{parse_update}
use forex_remote_copy_tradin.Slaves.Routes.{find_slave, get_slave, patch_slave}
use forex_remote_copy_tradin.Prelude.{◌⊎◌, update_where}
use forex_remote_copy_tradin.Prelude.{
  ℕ, ◌+◌, String, true, false, ◌≡◌, refl, Option, none, some, List, [], ◌∷◌, if◌then◌else◌, length,
  find_first, ◌==◌, ◌≤◌, truthy,
}
use forex_remote_copy_tradin.Prelude.Text.{strip_prefix}
use forex_remote_copy_tradin.Number.{cents}
use forex_remote_copy_tradin.Types.{CopyOrderStatus, TradeEventType, TradeSide, CopyInstruction}
use forex_remote_copy_tradin.World.{World}
use forex_remote_copy_tradin.Tests.Data.{
  master_one, slave_mt5, account, instruction_of, start, with_orders, sent_open, ended,
}
use forex_remote_copy_tradin.Slaves.Config.{new_slave}
use forex_remote_copy_tradin.Auth.{require_admin_auth}
use forex_remote_copy_tradin.Dashboard.Api.{Session, provider, log_in}
use forex_remote_copy_tradin.Slaves.Config.Parsing.{parse_create}
use forex_remote_copy_tradin.Connectors.Service.{
  of_slave, identity, new_connector, authenticate_connector,
}
use forex_remote_copy_tradin.CopyEngine.Plan.{proceed, plan}
use forex_remote_copy_tradin.CopyEngine.Results.{handle_slave_message}
use forex_remote_copy_tradin.Tools.SimulateSlave.{parse_args, receive}
use forex_remote_copy_tradin.Tools.SimulateSlave.Loop.{receive-plan-receive}
use forex_remote_copy_tradin.Dashboard.CreateAccountModal.{
  AccountForm, Outcome, shown, slave_kind, handle_submit,
}
use forex_remote_copy_tradin.Dashboard.CreateAccountModal.Account.{IsCreated}
use forex_remote_copy_tradin.Dashboard.CreateAccountModal.Credentials.{handle_submit-authenticate}
use forex_remote_copy_tradin.Dashboard.TradesPage.{
  TradeMessage, is_row, rows_after, max_rows, CopyOrderRow, first_load,
}
use forex_remote_copy_tradin.Dashboard.TradeFeed.{
  TradeFeed, mount, on_close, timed_out, unmount, connect, socket_closed, timer_fired, page_left,
  here, after, FeedReaches, on_message,
}
use forex_remote_copy_tradin.Dashboard.TradeFeed.Watch.{IsWatched, mount-IsWatched}
use forex_remote_copy_tradin.Dashboard.Polling.{not_asked}
use forex_remote_copy_tradin.Dashboard.SlaveDetailPage.{SlavePage, toggle_pause, polled_slave}
use forex_remote_copy_tradin.Dashboard.SlaveDetailPage.Pausing.{flipped, toggle_pause-polled_slave}
use forex_remote_copy_tradin.Dashboard.TradesPage.Latest.{IsLatest, IsNewestShown}
use forex_remote_copy_tradin.Dashboard.TradesPage.FirstLoad.{first_load-Refines}
use forex_remote_copy_tradin.Tests.AdminData.{
  exact, plain, boss, signing, with_boss, logged_out, text,
}

abbrev told : CopyOrderStatus → TradeMessage
told status = record {
  event = record {
    copy_id = "c1";
    master_id = "master-1";
    slave_id = "slave-5";
    master_ticket = "m1";
    type = TradeEventType.opens;
    status = status;
    symbol = "GOLD";
    side = some TradeSide.buy;
    volume = some (cents 50);
    slave_ticket = none;
    execution_price = none;
    error_reason = none;
  };
  timestamp = 1_000;
}

abbrev messages : List TradeMessage
messages = told CopyOrderStatus.executed ∷ told CopyOrderStatus.sent ∷ []

abbrev count_of : String → Option ℕ
count_of t = if t == "100" then some 100 else none

abbrev created_at : String → ℕ
created_at id = 999_000

abbrev loaded : List CopyOrderRow
loaded = first_load text count_of created_at (with_orders (sent_open ∷ []))

first_load-Refines_example :
    IsLatest text loaded messages "c1" (find_first (is_row "c1") (rows_after text loaded messages))
    × IsNewestShown text messages (rows_after text loaded messages)
    × (length (rows_after text loaded messages) ≤ max_rows)
first_load-Refines_example =
    first_load-Refines text count_of created_at (with_orders (sent_open ∷ [])) messages "c1" refl

abbrev new_account : AccountForm
new_account = record {
  name = "Six";
  account_number = "2006";
  broker = "Broker";
  platform = "MT4";
  server = "Live";
}

abbrev logged_in_boss : Session
logged_in_boss = log_in plain signing (some ("boss", "pw")) with_boss logged_out

abbrev submitted_slave : World × (Session × Outcome)
submitted_slave =
    handle_submit exact (λ t. t) (λ id. true) none signing (slave_kind "master-1") "k6" "t6"
      new_account "slave-6" with_boss (provider (some "token"))

handle_submit-authenticate_example :
    (submitted_slave.1.1 ≡ shown "t6")
    × IsCreated exact
        (λ t. t)
        (λ id. true)
        none
        new_account
        "slave-6"
        (slave_kind "master-1")
        submitted_slave.0
    × ((authenticate_connector (λ t. t) "t6" submitted_slave.0).1
        ≡ some (identity (new_connector (λ t. t) "k6" "t6" (of_slave "slave-6") (some "1.0.0"))))
unfolding require_admin_auth truthy strip_prefix parse_create new_slave
handle_submit-authenticate_example =
    handle_submit-authenticate exact (λ t. t) (λ id. true) none new_account "slave-6" "k6" "t6"
      signing (slave_kind "master-1") with_boss (provider (some "token")) boss refl
      (refl, (master_one, refl), refl) refl tt

abbrev told_to_open : CopyInstruction
told_to_open = record (instruction_of "c1") { side = some TradeSide.buy }

abbrev told_to_close : CopyInstruction
told_to_close = record (instruction_of "c2") {
  action = TradeEventType.closes;
  slave_ticket = some "123456";
}

receive-plan-receive_example :
    (plan
        (handle_slave_message "slave-5"
          (some (receive false "123456" (cents 335_000) told_to_open []).1)
          (with_orders (sent_open ∷ []))).copy_orders
        slave_mt5
        ended
        account
      ≡ proceed (some "123456") none)
    × ((receive false "654321"
          (cents 335_100)
          told_to_close
          (receive false "123456" (cents 335_000) told_to_open []).0).0
        ≡ [])
unfolding truthy
receive-plan-receive_example =
    receive-plan-receive slave_mt5 (with_orders (sent_open ∷ [])) sent_open told_to_open
      told_to_close "123456" "654321" (cents 335_000) (cents 335_100) [] ended account refl refl
      refl refl refl refl refl refl refl refl

-- a later value of a key wins, and a flag before another flag is "true"
parsed_arguments :
    parse_args ("x" ∷ "--fail" ∷ "--balance" ∷ "5" ∷ "--balance" ∷ "7" ∷ []) []
    ≡ ("balance", "7") ∷ ("balance", "5") ∷ ("fail", "true") ∷ []
unfolding parse_args strip_prefix
parsed_arguments = refl

-- the socket closes, the timer runs out, and the page is left; then the second socket closes
abbrev reconnected : TradeFeed
reconnected = timed_out 7 2 (on_close 1 7 (mount 1))

reconnected_path : FeedReaches (mount 1) reconnected
unfolding mount on_close timed_out connect
reconnected_path = after (after here (socket_closed 1 7 refl)) (timer_fired 7 2 refl)

left_path : FeedReaches (mount 1) (on_close 2 8 (unmount reconnected))
unfolding mount on_close timed_out unmount connect
left_path = after (after reconnected_path (page_left refl)) (socket_closed 2 8 refl)

mount-IsWatched_example : IsWatched (on_close 2 8 (unmount reconnected))
mount-IsWatched_example = mount-IsWatched 1 (on_close 2 8 (unmount reconnected)) left_path

-- a frame that is no message leaves the rows
ignored_frame : on_message count_of (λ n total. n + total) "{" 5 ≡ 5
unfolding on_message
ignored_frame = refl

abbrev told_status : ℕ → String
told_status status = "error"

abbrev paused_page : World × (Session × SlavePage)
paused_page =
    toggle_pause signing told_status exact slave_mt5 none start (provider (some "token"), not_asked)

toggle_pause-polled_slave_example :
    ((a : AdminTokenPayload) × (require_admin_auth signing
          (authorization (provider (some "token")))
          none
          1_000_000
        ≡ some a)
      × (find_slave paused_page.0.slaves "slave-5" ≡ some (flipped slave_mt5))
      × (paused_page.1 ≡ (
        provider (some "token"),
        record { data_shown = some (flipped slave_mt5, []); error = none; loading = false },
      )))
    ⊎ ((require_admin_auth signing (authorization (provider (some "token"))) none 1_000_000 ≡ none)
        × (paused_page ≡ (start, (logout (provider (some "token")), not_asked))))
toggle_pause-polled_slave_example =
    toggle_pause-polled_slave signing told_status exact slave_mt5 none start
      (provider (some "token")) not_asked refl

-- the page pauses, with the token
paused : paused_page.0.slaves ≡ update_where (λ s. s.id == "slave-5") flipped start.slaves
unfolding toggle_pause polled_slave api_fetch guarded require_admin_auth truthy strip_prefix
    patch_slave parse_update updated get_slave refetched
paused = refl
