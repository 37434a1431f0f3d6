-- ===== src/Connectors/Service/Liveness.antt =====
-- Heartbeats and the sweep: who counts as online.
use forex_remote_copy_tradin.Prelude.{
  ℕ, ◌+◌, ◌*◌, ◌≤◌, String, ◌≡◌, refl, sym, ap, ◌∙◌, inl, inr, true, false, ◌&&◌, Option, none,
  some, List, [], ◌∷◌, arith, find_first, update_where, any, All, ◌==◌, Bool-cases, eq→beq, truthy,
  get_or, leb, Bool, false,
}
use forex_remote_copy_tradin.Types.{Connector, ConnectorStatus}
use forex_remote_copy_tradin.World.{World}
use forex_remote_copy_tradin.Connectors.Online.{
  is_online, is_slave, is_swept, has_online_connector, sweep_offline_connectors,
}
use forex_remote_copy_tradin.Connectors.Service.{
  AccountSnapshot, beaten, report, marked, store_account, record_heartbeat,
}

-- An online connector has had a heartbeat at most the threshold ago.
abbrev pub IsFresh : ℕ → ℕ → Connector → Type 0
IsFresh threshold_seconds now c =
    c.status ≡ ConnectorStatus.online
    → (at : ℕ) × (c.last_heartbeat_at ≡ some at) × (now ≤ at + threshold_seconds * 1000)

abbrev is_since : ℕ → Option ℕ → Bool
is_since beat none = false
is_since beat (some at) = leb beat at

module _ (threshold_seconds : ℕ) where
  unswept :
      (now : ℕ) (c : Connector) (beat : Option ℕ)
      → c.last_heartbeat_at ≡ beat
      → is_swept threshold_seconds now c ≡ false
      → IsFresh threshold_seconds now c
  unswept now c none e h on = absurd (ground arith)
  unswept now c (some at) e h on = (at, e, ground arith)

  swept-IsFresh :
      (now : ℕ) (connectors : List Connector)
      → All (IsFresh threshold_seconds now) (
          update_where
            (is_swept threshold_seconds now)
            (λ c. record c { status = ConnectorStatus.offline })
            connectors)
  swept-IsFresh now [] = tt
  swept-IsFresh now (c ∷ connectors) = elim (Bool-cases (is_swept threshold_seconds now c)) [
    | inl stale ↦ rw stale ((λ on. absurd (cc)), swept-IsFresh now connectors)
    | inr fresh ↦
        rw fresh (unswept now c c.last_heartbeat_at refl fresh, swept-IsFresh now connectors)
  ]

  -- After a sweep every connector that is still online has had a heartbeat within the threshold.
  pub sweep-IsFresh :
      (w : World)
      → All
          (IsFresh threshold_seconds w.now)
          (sweep_offline_connectors threshold_seconds w).0.connectors
  unfolding sweep_offline_connectors
  sweep-IsFresh w = swept-IsFresh w.now w.connectors

  -- An online connector of the Slave whose last heartbeat was not before an instant.
  abbrev is_beating : ℕ → String → Connector → Bool
  is_beating beat slave_id d =
      is_slave d.slave_id slave_id && is_online d.status && is_since beat d.last_heartbeat_at

  -- What is not stale is not swept.
  beating_unswept :
      (c : Connector) (slave_id : String) (beat now : ℕ) (at : Option ℕ)
      → c.last_heartbeat_at ≡ at
      → now ≤ beat + threshold_seconds * 1000
      → is_beating beat slave_id c ≡ true
      → is_swept threshold_seconds now c ≡ false
  beating_unswept c slave_id beat now none e soon here = ground arith
  beating_unswept c slave_id beat now (some at) e soon here = ground arith

  sweep_keeps :
      (connectors : List Connector) (slave_id : String) (beat now : ℕ)
      → now ≤ beat + threshold_seconds * 1000
      → any (is_beating beat slave_id) connectors ≡ true
      → any (is_beating beat slave_id) (
          update_where
            (is_swept threshold_seconds now)
            (λ d. record d { status = ConnectorStatus.offline })
            connectors)
        ≡ true
  sweep_keeps [] slave_id beat now soon there = there
  sweep_keeps (x ∷ connectors) slave_id beat now soon there =
      let later = sweep_keeps connectors slave_id beat now soon in
      elim (Bool-cases (is_beating beat slave_id x)) [
        | inl here ↦
            rw (beating_unswept x slave_id beat now x.last_heartbeat_at refl soon here, here) refl
        | inr other ↦
            let rest : any (is_beating beat slave_id) connectors ≡ true = rw other at there in
            ground (arith, later rest)
      ]

  beat_counts :
      (connectors : List Connector) (k slave_id : String) (c : Connector) (beat : ℕ)
      → find_first (λ d. d.id == k) connectors ≡ some c
      → c.slave_id ≡ some slave_id
      → any (is_beating beat slave_id) (update_where (λ d. d.id == k) (beaten beat) connectors)
        ≡ true
  beat_counts [] k slave_id c beat found own = absurd (cc)
  beat_counts (x ∷ connectors) k slave_id c beat found own = elim (Bool-cases (x.id == k)) [
    | inl here ↦
        let first : some x ≡ some c = rw here at found in
        let same : x ≡ c = cc in
        let slave : x.slave_id ≡ some slave_id = ap (λ d. d.slave_id) same ∙ own in
        let since : leb beat beat ≡ true = ground arith in
        rw (here, slave, eq→beq slave_id slave_id refl, since) refl
    | inr other ↦
        let later = beat_counts connectors k slave_id c beat (rw other at found) own in
        ground (arith, later)
  ]

  beating_counts :
      (connectors : List Connector) (slave_id : String) (beat : ℕ)
      → any (is_beating beat slave_id) connectors ≡ true
      → any (λ d. is_slave d.slave_id slave_id && is_online d.status) connectors ≡ true
  beating_counts [] slave_id beat there = there
  beating_counts (x ∷ connectors) slave_id beat there =
      ground (arith, beating_counts connectors slave_id beat)

  -- the sweeps at some instants, the last one first
  pub swept_at : List ℕ → World → World
  unfolding sweep_offline_connectors
  swept_at [] w = w
  swept_at (now ∷ earlier) w =
      (sweep_offline_connectors threshold_seconds (record (swept_at earlier w) { now = now })).0

  swept_at-keeps :
      (times : List ℕ) (slave_id : String) (beat : ℕ) (w : World)
      → All (λ now. now ≤ beat + threshold_seconds * 1000) times
      → any (is_beating beat slave_id) w.connectors ≡ true
      → any (is_beating beat slave_id) (swept_at times w).connectors ≡ true
  unfolding swept_at sweep_offline_connectors
  swept_at-keeps [] slave_id beat w soon there = there
  swept_at-keeps (now ∷ earlier) slave_id beat w (first, rest) there =
      sweep_keeps (swept_at earlier w).connectors slave_id beat now first
        (swept_at-keeps earlier slave_id beat w rest there)

store_account-connectors :
    (a : AccountSnapshot) (master slave : Option String) (w : World)
    → (store_account a master slave w).connectors ≡ w.connectors
unfolding store_account
store_account-connectors a (some m) slave w = refl
store_account-connectors a none none w = refl
store_account-connectors a none (some s) w = refl

report-connectors :
    (a : Option AccountSnapshot) (c : Connector) (w : World)
    → (report a c w).connectors ≡ w.connectors
unfolding report
report-connectors none c w = refl
report-connectors (some a) c w =
    store_account-connectors a (truthy c.master_id) (truthy c.slave_id) w

record_heartbeat-connectors :
    (threshold_seconds : ℕ) (id : String) (a : Option AccountSnapshot) (c : Connector) (w : World)
    {w' : World}
    → find_first (λ d. d.id == id) w.connectors ≡ some c
    → record_heartbeat threshold_seconds id a w ≡ some w'
    → w'.connectors ≡ update_where (λ d. d.id == id) (beaten w.now) w.connectors
unfolding record_heartbeat
record_heartbeat-connectors threshold_seconds id a c w {w'} found h =
    let same : some (report a c (marked threshold_seconds id w)) ≡ some w' =
      rw (found, record_heartbeat) at h in
    ap (λ o. (get_or o w).connectors) (sym same)
    ∙ report-connectors a c (marked threshold_seconds id w)

-- After the heartbeat of a Slave's connector the Slave counts as online, and it still does after however
-- many sweeps, in whatever order, that run no later than the threshold after that heartbeat.
pub heartbeat-sweep :
    (threshold_seconds : ℕ) (id slave_id : String) (a : Option AccountSnapshot) (c : Connector)
    (w w' : World) (times : List ℕ)
    → find_first (λ d. d.id == id) w.connectors ≡ some c
    → c.slave_id ≡ some slave_id
    → record_heartbeat threshold_seconds id a w ≡ some w'
    → All (λ now. now ≤ w.now + threshold_seconds * 1000) times
    → (has_online_connector w' slave_id ≡ true)
      × (has_online_connector (swept_at threshold_seconds times w') slave_id ≡ true)
unfolding has_online_connector
heartbeat-sweep threshold_seconds id slave_id a c w w' times found own h soon =
    let beating : any (is_beating threshold_seconds w.now slave_id) w'.connectors ≡ true =
      rw (record_heartbeat-connectors threshold_seconds id a c w found h)
        (beat_counts threshold_seconds w.connectors id slave_id c w.now found own) in
    (
      beating_counts threshold_seconds w'.connectors slave_id w.now beating,
      beating_counts threshold_seconds (swept_at threshold_seconds times w').connectors slave_id
          w.now (swept_at-keeps threshold_seconds times slave_id w.now w' soon beating),
    )
