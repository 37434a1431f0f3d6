-- ===== src/Dashboard/TradeFeed/Watch.antt =====
-- The feed never stops watching before its page is left, and leaves nothing behind then.
use forex_remote_copy_tradin.Prelude.{
  ℕ, true, false, ◌≡◌, refl, some, List, [], ◌∷◌, arith, Bool-cases, Option-cases, inl, inr,
}
use forex_remote_copy_tradin.Dashboard.TradeFeed.{
  TradeFeed, mount, on_close, timed_out, unmount, connect, is_in, is_number, without, FeedStep,
  socket_closed, timer_fired, page_left, FeedReaches, here, after,
}

-- The four ways in which a feed may stand.
pub data IsWatched (f : TradeFeed) : Type 0 where
  -- the page is there: one socket, which will set a timer when it closes, and no timer
  connected :
      (s : ℕ)
      → f.stopped ≡ false
      → f.sockets ≡ s ∷ []
      → f.socket ≡ some s
      → f.closing ≡ []
      → f.timers ≡ []
      → IsWatched f
  -- the page is there: no socket, and one timer, which will untold one
  waiting :
      (t : ℕ)
      → f.stopped ≡ false
      → f.sockets ≡ []
      → f.timers ≡ t ∷ []
      → f.reconnect_timer ≡ some t
      → f.closing ≡ []
      → IsWatched f
  -- the page is left: no timer, and the one socket was told to close
  closing :
      (s : ℕ)
      → f.stopped ≡ true
      → f.sockets ≡ s ∷ []
      → f.closing ≡ s ∷ []
      → f.timers ≡ []
      → IsWatched f
  -- the page is left, and nothing is there
  finished : f.stopped ≡ true → f.sockets ≡ [] → f.timers ≡ [] → IsWatched f

none_in {ℓ} : {A : Type ℓ} (n : ℕ) {xs : List ℕ} → is_in n xs ≡ true → xs ≡ [] → A
none_in n h gone = absurd (let nothing = rw gone at h in cc)

-- A member of a list of one number is that number, and without it the list is empty.
without_only : (n m : ℕ) → is_in n (m ∷ []) ≡ true → without n (m ∷ []) ≡ []
without_only n m h = elim (Bool-cases (is_number n m)) [
  | inl same ↦ rw same refl
  | inr other ↦ none_in n (let there = rw other at h in there) refl
]

without_itself : (n : ℕ) → without n (n ∷ []) ≡ []
without_itself n = let same : is_number n n ≡ true = ground arith in rw same refl

module _ (f : TradeFeed) where
  on_close-IsWatched :
      (s t : ℕ) → is_in s f.sockets ≡ true → IsWatched f → IsWatched (on_close s t f)
  unfolding on_close
  on_close-IsWatched s t there (connected s' live one this untold none_set) =
      rw live (
        waiting t refl (rw one (without_only s s' (rw one at there))) (rw none_set refl) refl
          untold)
  on_close-IsWatched s t there (waiting t' live gone set next untold) = none_in s there gone
  on_close-IsWatched s t there (closing s' left one told none_set) =
      rw left (finished refl (rw one (without_only s s' (rw one at there))) none_set)
  on_close-IsWatched s t there (finished left gone none_set) = none_in s there gone

  timed_out-IsWatched :
      (t s : ℕ) → is_in t f.timers ≡ true → IsWatched f → IsWatched (timed_out t s f)
  unfolding timed_out connect
  timed_out-IsWatched t s there (waiting t' live gone set next untold) =
      rw live
        (connected s refl (rw gone refl) refl untold (rw set (without_only t t' (rw set at there))))
  timed_out-IsWatched t s there (connected s' live one this untold none_set) =
      none_in t there none_set
  timed_out-IsWatched t s there (closing s' left one told none_set) = none_in t there none_set
  timed_out-IsWatched t s there (finished left gone none_set) = none_in t there none_set

  unmount-IsWatched : f.stopped ≡ false → IsWatched f → IsWatched (unmount f)
  unfolding unmount
  unmount-IsWatched live (connected s live' one this untold none_set) =
      elim (Option-cases f.reconnect_timer) [
        | inl no_timer ↦ rw (this, no_timer) (closing s refl one (rw untold refl) none_set)
        | inr (t, old) ↦ rw (this, old) (closing s refl one (rw untold refl) (rw none_set refl))
      ]
  unmount-IsWatched live (waiting t live' gone set next untold) = elim (Option-cases f.socket) [
    | inl no_socket ↦ rw (next, no_socket) (finished refl gone (rw set (without_itself t)))
    | inr (s, old) ↦ rw (next, old) (finished refl gone (rw set (without_itself t)))
  ]
  unmount-IsWatched live (closing s left one told none_set) = absurd (cc)
  unmount-IsWatched live (finished left gone none_set) = absurd (cc)

  step-IsWatched : (g : TradeFeed) → FeedStep f g → IsWatched f → IsWatched g
  step-IsWatched g (socket_closed s t there) ok = on_close-IsWatched s t there ok
  step-IsWatched g (timer_fired t s there) ok = timed_out-IsWatched t s there ok
  step-IsWatched g (page_left live) ok = unmount-IsWatched live ok

-- The feed of a page is always in one of four ways, whatever its sockets and timers do and whenever the
-- page is left. While the page is there, there is either one socket, the newest, and no timer, or no
-- socket and one timer. Once it is left there is no timer, and at most one socket, which was told to
-- close.
pub mount-IsWatched : (first : ℕ) (f : TradeFeed) → FeedReaches (mount first) f → IsWatched f
unfolding mount connect
mount-IsWatched first _ here = connected first refl refl refl refl refl
mount-IsWatched first _ (after {g = f} {h = g} before step) =
    step-IsWatched f g step (mount-IsWatched first f before)
