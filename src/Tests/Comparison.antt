-- ===== src/Tests/Comparison.antt =====
-- The theorems on reconciliation at concrete inputs.
use forex_remote_copy_tradin.Prelude.{
  ℕ, String, ◌≡◌, ◌↔◌, refl, Bool, true, false, Option, none, some, List, [], ◌∷◌, All,
}
use forex_remote_copy_tradin.Prelude.Int.{pos}
use forex_remote_copy_tradin.Number.{Number, cents, of_int}
use forex_remote_copy_tradin.Number.Double.{to_double, distance}
use forex_remote_copy_tradin.Reconciliation.Engine.{
  CompareStateInput, Finding, missing_copy, volume_mismatch, compare_state,
}
use forex_remote_copy_tradin.Reconciliation.Engine.Agreement.{Agrees, compare_state-Agrees_iff}
use forex_remote_copy_tradin.Reconciliation.Service.{
  Limits, RunOptions, FindingRow, run_reconciliation,
}
use forex_remote_copy_tradin.Reconciliation.Service.Replacement.{
  IsReplaced, run_reconciliation-IsReplaced,
}
use forex_remote_copy_tradin.Tests.Data.{slave_mt5, slave_mt4, slave_paused, start}

-- one position, copied and reported as it should be
abbrev agreed : CompareStateInput
agreed = record {
  master_positions = record { ticket = "m1"; symbol = "GOLD"; volume = cents 20 } ∷ [];
  open_copies =
      record {
        copy_id = "c1";
        master_ticket = "m1";
        slave_ticket = some "s77";
        requested_volume = some (cents 10);
      }
      ∷ [];
  closed_copies = [];
  slave_positions =
      record {
        ticket = "s77";
        symbol = "GOLD";
        volume = cents 10;
        sl = none;
        tp = none;
        comment = some "copy:c1";
      }
      ∷ [];
  expected_sl_tp = λ ticket. some (record { sl = none; tp = none });
  volume_tolerance = cents 1;
  price_tolerance = record { num = pos 1; den_pred = 9_999 };
}

silent : compare_state agreed ≡ []
unfolding compare_state forex_remote_copy_tradin.Prelude.truthy forex_remote_copy_tradin.Number.ltb
    forex_remote_copy_tradin.Number.abs forex_remote_copy_tradin.Number.sub
    forex_remote_copy_tradin.Reconciliation.Engine.CopyId.extract_copy_id to_double distance
silent = refl

-- 0.1 as JavaScript has it
tenth_as_double :
    to_double (cents 10)
    ≡ record { num = pos 7_205_759_403_792_794; den_pred = 72_057_594_037_927_935 }
unfolding to_double
tenth_as_double = refl

-- 0.09 in place of 0.10 is reported at the tolerance 0.01: the difference of the doubles is above it.
abbrev one_step_less : CompareStateInput
one_step_less = record agreed {
  slave_positions =
      record {
        ticket = "s77";
        symbol = "GOLD";
        volume = cents 9;
        sl = none;
        tp = none;
        comment = some "copy:c1";
      }
      ∷ [];
}

reported_at_tolerance :
    compare_state one_step_less ≡ volume_mismatch "m1" "s77" (cents 10) (cents 9) ∷ []
unfolding compare_state forex_remote_copy_tradin.Prelude.truthy forex_remote_copy_tradin.Number.ltb
    forex_remote_copy_tradin.Number.abs forex_remote_copy_tradin.Number.sub
    forex_remote_copy_tradin.Reconciliation.Engine.CopyId.extract_copy_id to_double distance
reported_at_tolerance = refl

compare_state-Agrees_iff_example : (compare_state agreed ≡ []) ↔ Agrees agreed
compare_state-Agrees_iff_example = compare_state-Agrees_iff agreed

abbrev limits : Limits
limits = record {
  staleness_seconds = 300;
  volume_tolerance = cents 1;
  price_tolerance = record { num = pos 1; den_pred = 9_999 };
}

abbrev everything : RunOptions
everything = record { master_id = none; slave_id = none }

-- what an earlier run had found
abbrev found : List FindingRow
found =
    record {
      master_id = "master-1";
      slave_id = "slave-4";
      finding = missing_copy "m0" "GOLD" (cents 1);
    }
    ∷ []

run_reconciliation-IsReplaced_example :
    All
      (IsReplaced limits start found (run_reconciliation limits everything start found).0)
      (slave_mt5 ∷ slave_mt4 ∷ slave_paused ∷ [])
unfolding forex_remote_copy_tradin.Prelude.truthy
run_reconciliation-IsReplaced_example =
    run_reconciliation-IsReplaced limits start everything found (refl, (refl, (refl, tt)))
