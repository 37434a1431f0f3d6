-- ===== src/Dashboard/Polling.antt =====
-- frontend/src/lib/usePolling.ts: what a page shows of a route that it asks again and again.
use forex_remote_copy_tradin.Prelude.{ℕ, String, Bool, true, false, Option, none, some, get_or}
use forex_remote_copy_tradin.Dashboard.Api.{Fetched, body, undefined, api_error}

-- what a call of the fetcher comes to: a result, which may be undefined, or a rejection, with the message
-- of an Error
pub data Settled {ℓ} (T : Type ℓ) : Type ℓ where
  resolved : Option T → Settled T
  rejected : Option String → Settled T

pub record Polled {ℓ} (T : Type ℓ) : Type ℓ where
  pub data_shown : Option T
  pub error : Option String
  pub loading : Bool

-- A call of a route; an ApiError has a message.
abbrev pub settled {ℓ} : {T : Type ℓ} → (ℕ → String) → Fetched T → Settled T
settled message (body a) = resolved (some a)
settled message undefined = resolved none
settled message (api_error status) = rejected (some (message status))

module _ {ℓ} {T : Type ℓ} where
  abbrev pub not_asked : Polled T
  not_asked = record { data_shown = none; error = none; loading = true }

  -- refetch, when its call has settled: a failure keeps the data
  unfoldable pub refetched : Settled T → Polled T → Polled T
  refetched (resolved result) p = record { data_shown = result; error = none; loading = false }
  refetched (rejected message) p = record p {
    error = some (get_or message "Failed to load");
    loading = false;
  }
