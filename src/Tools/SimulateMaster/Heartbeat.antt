-- ===== src/Tools/SimulateMaster/Heartbeat.antt =====
-- backend/tools/simulate-master-heartbeat.ts, and heartbeatBodySchema of
-- backend/src/modules/connectors/connector.routes.ts, which reads its body. What JSON.parse and the schema
-- of the positions make of a text are arguments.
use Prim.Native.String.{◌++◌}
use forex_remote_copy_tradin.Prelude.{
  ℕ, String, Option, none, some, List, [], option_map, option_bind, truthy,
}
use forex_remote_copy_tradin.Prelude.Int.{pos}
use forex_remote_copy_tradin.Number.{Number, of_int}
use forex_remote_copy_tradin.Types.{PositionSnapshotItem}
use forex_remote_copy_tradin.World.{World}
use forex_remote_copy_tradin.Slaves.Config.Parsing.{Field, absent, null, number}
use forex_remote_copy_tradin.Ingest.Parsing.{nonnegative_field}
use forex_remote_copy_tradin.Connectors.Transport.{HeartbeatBody, heartbeat}
use forex_remote_copy_tradin.Tools.SimulateSlave.{parse_args}
use forex_remote_copy_tradin.Tools.SimulateMaster.{arg, load_token, number_or}

-- the body of a heartbeat; the positions as their own schema reads them, `none` where it refuses them
pub record SentBody : Type 0 where
  pub balance : Field
  pub equity : Field
  pub positions : Option (Option (List PositionSnapshotItem))

-- z.number().optional()
abbrev number_field : Field → Option (Option Number)
number_field absent = some none
number_field null = none
number_field (number n) = some (some n)

-- an optional value, of which there is none or one that was refused or read
abbrev optional_field {ℓ} : {A : Type ℓ} → Option (Option A) → Option (Option A)
optional_field none = some none
optional_field (some read) = option_map some read

-- heartbeatBodySchema
unfoldable pub parse_heartbeat : SentBody → Option HeartbeatBody
parse_heartbeat b = option_bind (nonnegative_field b.balance) λ balance.
    option_bind (number_field b.equity) λ equity.
      option_bind (optional_field b.positions)
        λ positions. some (record { balance = balance; equity = equity; positions = positions })

-- `args.positions ? JSON.parse(args.positions) : undefined`, of which a value
-- that is falsy is left out; the outer `none` is a throw
abbrev positions_of :
    (String → Option (Option (Option (List PositionSnapshotItem))))
    → Option String
    → Option (Option (Option (List PositionSnapshotItem)))
positions_of read none = some none
positions_of read (some text) = read text

unfoldable pub heartbeat_body :
    (String → Option Number)
    → (String → Option (Option (Option (List PositionSnapshotItem))))
    → List (String × String)
    → Option SentBody
unfolding truthy
heartbeat_body number_of read args =
    let balance = number_or number_of (arg args "balance") (number (of_int (pos 10_000))) in
    option_map
      (λ positions. record {
        balance = balance;
        equity = number_or number_of (arg args "equity") balance;
        positions = positions;
      })
      (positions_of read (truthy (arg args "positions")))

module _ (threshold_seconds : ℕ) (hash_token : String → String) (number_of : String → Option Number)
    (read : String → Option (Option (Option (List PositionSnapshotItem)))) (trim : String → String)
    (environment file : Option String) where
  -- main, on the arguments and the route that it calls; `none` is a throw before the request
  unfoldable pub simulate_heartbeat : List String → World → Option (World × ℕ)
  unfolding load_token heartbeat_body parse_heartbeat heartbeat parse_args
  simulate_heartbeat argv w =
      let args = parse_args argv [] in
      option_bind (load_token trim (arg args "token") environment file) (λ token.
        option_map
          (λ body.
            heartbeat threshold_seconds hash_token (some ("Bearer " ++ token))
              (parse_heartbeat body) w)
          (heartbeat_body number_of read args))
