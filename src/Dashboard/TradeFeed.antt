-- ===== src/Dashboard/TradeFeed.antt =====
-- frontend/src/lib/ws.ts: the socket of the live trades, which connects again after it has closed, until
-- its page is left. The numbers of the sockets and of the timers that are drawn are arguments; that of a
-- timer is not 0.
pub mod Watch
use forex_remote_copy_tradin.Prelude.{
  ℕ, String, Bool, true, false, ◌≡◌, not, Option, none, some, List, [], ◌∷◌, if◌then◌else◌, any,
  filter_by, leb, ◌&&◌,
}

-- The variables of the effect, and what the browser keeps for it: the sockets that have not closed yet,
-- those that were told to close, and the timers that are set.
pub record TradeFeed : Type 0 where
  pub socket : Option ℕ
  pub reconnect_timer : Option ℕ
  pub stopped : Bool
  pub sockets : List ℕ
  pub closing : List ℕ
  pub timers : List ℕ

abbrev pub is_number : ℕ → ℕ → Bool
is_number n m = leb m n && leb n m

abbrev pub is_in : ℕ → List ℕ → Bool
is_in n = any (is_number n)

abbrev pub without : ℕ → List ℕ → List ℕ
without n = filter_by (λ m. not (is_number n m))

-- connect
unfoldable pub connect : ℕ → TradeFeed → TradeFeed
connect new_socket f =
    if f.stopped then f else record f { sockets = new_socket ∷ f.sockets; socket = some new_socket }

abbrev unmounted_feed : TradeFeed
unmounted_feed = record {
  socket = none;
  reconnect_timer = none;
  stopped = false;
  sockets = [];
  closing = [];
  timers = [];
}

-- the effect
unfoldable pub mount : ℕ → TradeFeed
mount new_socket = connect new_socket unmounted_feed

-- socket.onmessage: a frame that does not parse is ignored
unfoldable pub on_message {ℓ κ} :
    {E : Type ℓ} {A : Type κ} → (String → Option E) → (E → A → A) → String → A → A
on_message parse on_event frame page = elim (parse frame) [ none ↦ page | some e ↦ on_event e page ]

-- socket.onclose, when the socket has closed
unfoldable pub on_close : ℕ → ℕ → TradeFeed → TradeFeed
on_close closed new_timer f =
    let gone : TradeFeed = record f { sockets = without closed f.sockets } in
    if f.stopped
    then gone
    else record gone { timers = new_timer ∷ f.timers; reconnect_timer = some new_timer }

-- setTimeout(connect), when the timer runs out
unfoldable pub timed_out : ℕ → ℕ → TradeFeed → TradeFeed
timed_out timer new_socket f = connect new_socket (record f { timers = without timer f.timers })

abbrev clear_timeout : Option ℕ → TradeFeed → TradeFeed
clear_timeout none f = f
clear_timeout (some timer) f = record f { timers = without timer f.timers }

abbrev close : Option ℕ → TradeFeed → TradeFeed
close none f = f
close (some socket) f = record f { closing = socket ∷ f.closing }

-- the effect's cleanup
unfoldable pub unmount : TradeFeed → TradeFeed
unmount f = close f.socket (clear_timeout f.reconnect_timer (record f { stopped = true }))

-- What may happen to the feed: a socket that is there closes, by whichever side; a timer that is set runs
-- out; the page is left, once.
pub data FeedStep (f : TradeFeed) : TradeFeed → Type 0 where
  socket_closed :
      (closed new_timer : ℕ)
      → is_in closed f.sockets ≡ true
      → FeedStep f (on_close closed new_timer f)
  timer_fired :
      (timer new_socket : ℕ)
      → is_in timer f.timers ≡ true
      → FeedStep f (timed_out timer new_socket f)
  page_left : f.stopped ≡ false → FeedStep f (unmount f)

-- What a feed leads to.
pub data FeedReaches (f : TradeFeed) : TradeFeed → Type 0 where
  here : FeedReaches f f
  after : {g h : TradeFeed} → FeedReaches f g → FeedStep g h → FeedReaches f h
